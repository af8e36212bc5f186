-- ===== src/Buffer/Numbers.antt =====
-- Integers in network byte order: what `prependInt` writes, `readUint` reads.
use native.Mathlib.Nat.{
  div-add-mod', mod-lt, mod-eq_of_lt, mod-one, pow-suc, add-mul-mod_self_right,
}
use native.Mathlib.Numerals.{towards_suc}
use clear_moon.Prelude.{
  ℕ, zero, suc, ◌+◌, ◌*◌, ◌/◌, ◌%◌, ◌^◌, ◌≤◌, ◌<◌, ◌≡◌, refl, sym, ap, ◌∙◌, ◌++◌, some, arith,
  Bytes, length, take, drop, length-append, take-append_past, drop-append_past, append-nil,
}
use clear_moon.Buffer.Contents.{
  IsValid, contents, peek-contents, length-contents, retrieve-contents, prepend-contents,
}
use clear_moon.Buffer.{Buffer, net_to_host, host_to_net, read_uint, prepend_int, readable_bytes}

pub length-host_to_net : (w x : ℕ) → length (host_to_net w x) ≡ w
unfolding host_to_net
length-host_to_net zero x = refl
length-host_to_net (suc w) x = ap suc (length-host_to_net w x)

-- The digit above `p` in base 256.
mod-digit : (x p : ℕ) → 0 < p → x % (256 * p) ≡ x / p % 256 * p + x % p
mod-digit x p h =
    ap (λ t. t % (256 * p)) split
    ∙ add-mul-mod_self_right low (x / p / 256) (256 * p)
    ∙ mod-eq_of_lt small
  where
    low : ℕ
    low = x / p % 256 * p + x % p

    split : x ≡ low + x / p / 256 * (256 * p)
    split = omega (arith, div-add-mod' x p, ap (λ (t : ℕ). t * p) (div-add-mod' (x / p) 256))

    small : low < 256 * p
    small = grind (arith, mod-lt x h, mod-lt (x / p) {m = 256} (omega arith))

pow-pos : (w : ℕ) → 0 < 2 ^ w
pow-pos zero = omega arith
pow-pos (suc w) = rw pow-suc (omega (arith, pow-pos w))

pow-byte : (w : ℕ) → 2 ^ (8 * suc w) ≡ 256 * 2 ^ (8 * w)
pow-byte w = ap (λ t. 2 ^ t) (omega arith) ∙ shift (8 * w)
  where
    shift : (k : ℕ) → 2 ^ (k + 8) ≡ 256 * 2 ^ k
    shift k = simp towards_suc (omega arith)

pub net_to_host-host_to_net : (w x : ℕ) → net_to_host (host_to_net w x) ≡ x % 2 ^ (8 * w)
unfolding net_to_host host_to_net
net_to_host-host_to_net zero x = sym (mod-one x)
net_to_host-host_to_net (suc w) x =
    rw (length-host_to_net w x, net_to_host-host_to_net w x, pow-byte w)
      (sym (mod-digit x (2 ^ (8 * w)) (pow-pos (8 * w))))

-- An integer below 2 ^ (8 w), put in `w` bytes in front of the queue of a valid buffer that has them
-- reserved, is read back from it, and the queue is then as before.
pub read_uint-prepend_int :
    {b : Buffer} (w x : ℕ)
    → IsValid b
    → w ≤ b.read_index
    → x < 2 ^ (8 * w)
    → (m b' : Buffer) × (prepend_int w x b ≡ some m)
      × (contents m ≡ host_to_net w x ++ contents b)
      × (read_uint w m ≡ some (x, b'))
      × IsValid b'
      × (contents b' ≡ contents b)
unfolding read_uint
read_uint-prepend_int {b} w x v room small =
    let header : Bytes = host_to_net w x in
    let size : length header ≡ w = length-host_to_net w x in
    let (m, e, vm, c) = prepend-contents header v (omega arith) in
    let have : w ≤ readable_bytes m =
      omega (arith, length-contents vm, ap length c, length-append header (contents b)) in
    let (b', f, vb, d, _) = retrieve-contents w vm have in
    (
      m,
      b',
      e,
      c,
      ground (
        arith,
        f,
        peek-contents w vm have,
        ap (take w) c,
        take-append_past w 0 header (contents b),
        append-nil header,
        net_to_host-host_to_net w x,
        mod-eq_of_lt small,
      ),
      vb,
      d ∙ ap (drop w) c ∙ drop-append_past w 0 header (contents b) (omega arith),
    )
