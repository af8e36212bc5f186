-- ===== src/Endpoints/Connector/Rests.antt =====
-- The states of a connector, and what the giving up of an attempt makes of them.
use clear_moon.Prelude.{
  ℕ, ◌+◌, ◌≡◌, refl, ap, ◌∙◌, Bool, true, false, ◌||◌, List, [], ◌∷◌, Option, none, some, ◌==◌,
  length, arith,
}
use clear_moon.Reactor.Epoller.{Channel, Epoller}
use clear_moon.Reactor.Channel.{removal}
use clear_moon.Reactor.Channel.Registered.{apply-Good}
use clear_moon.Reactor.Channel.Listed.{Registered}
use clear_moon.Endpoints.Connector.{
  disconnected, connected, Connector, is_connecting, close_old, assign_sock, drop_channel_of,
  drop_channel, cancel_of, hand_over_to, give_up,
}

unfoldable pub has_id : ℕ → List ℕ → Bool
has_id i [] = false
has_id i (j ∷ l) = i == j || has_id i l

-- The descriptors that the connector holds, gave away or closed.
abbrev pub descriptors : Connector → ℕ
descriptors k = length (close_old k.sock k.closed) + length k.handed

-- What an attempt has: a registered channel for its socket, and a timer that will end it.
pub record Underway (k : Connector) : Type 0 where
  pub channel_of : Channel
  pub has_channel : k.channel ≡ some channel_of
  pub is_registered : Registered channel_of k.poller
  pub id_of : ℕ
  pub has_timeout : k.connect_timeout_id ≡ some id_of
  pub is_armed : has_id id_of k.armed ≡ true

-- Between attempts.
pub record Rests (k : Connector) : Type 0 where
  pub no_channel : k.channel ≡ none
  pub at_rest : is_connecting k.state ≡ false
  pub no_sock : k.state ≡ disconnected → k.sock ≡ none

abbrev pub Steady : Connector → Type 0
Steady k = (is_connecting k.state ≡ true → Underway k) × (is_connecting k.state ≡ false → Rests k)

-- Steady, with `n` descriptors.
abbrev pub Kept : ℕ → Connector → Type 0
Kept n k = Steady k × (descriptors k ≡ n)

-- It does not fail, and what comes of it is of `P`.
abbrev pub Gives : (Connector → Type 0) → Option Connector → Type 0
Gives P o = (k : Connector) × (o ≡ some k) × P k

-- `channel_` is gone, and nothing else but the poller is touched.
abbrev pub dropped : Connector → Epoller → Connector
dropped k p = record k { channel = none; poller = p }

pub drop_channel-gone :
    (c : Channel) (k : Connector)
    → k.channel ≡ some c
    → Registered c k.poller
    → (p : Epoller) × (drop_channel k ≡ some (dropped k p))
unfolding drop_channel
drop_channel-gone c k h r =
    let (c1, p1, e1, r1, f1, d1, a1) = apply-Good removal c k.poller r in
    let (c2, p2, e2, r2, f2, d2, a2) = apply-Good removal c1 p1 r1 in
    (p2, ap (λ o. drop_channel_of o k) h ∙ rw e1 (rw e2 refl))

-- A channel that is registered.
abbrev pub Held : Connector → Type 0
Held k = (c : Channel) × (k.channel ≡ some c) × Registered c k.poller

pub held : (k : Connector) → Underway k → Held k
held k u = (u.channel_of, u.has_channel, u.is_registered)

pub Rests-Steady : (k : Connector) → Rests k → Steady k
Rests-Steady k r = (λ e. absurd (both (is_connecting k.state) e r.at_rest), λ _. r)
  where
    both : (b : Bool) → b ≡ true → b ≡ false → ⊥
    both b e f = cc

pub cancel_of-Rests :
    (o : Option ℕ) (k : Connector)
    → Rests k
    → Rests (cancel_of o k) × (descriptors (cancel_of o k) ≡ descriptors k)
cancel_of-Rests none k r = (r, refl)
cancel_of-Rests (some i) k r =
    (record { no_channel = r.no_channel; at_rest = r.at_rest; no_sock = r.no_sock }, refl)

-- To give the socket away takes a state other than disconnected.
pub hand_over_to-Rests :
    (b : Bool) (s : Option ℕ) (k : Connector)
    → k.sock ≡ s
    → (k.state ≡ disconnected → ⊥)
    → k.channel ≡ none
    → is_connecting k.state ≡ false
    → Rests (hand_over_to b s k) × (descriptors (hand_over_to b s k) ≡ descriptors k)
hand_over_to-Rests false s k e n c a =
    (record { no_channel = c; at_rest = a; no_sock = λ d. absurd (n d) }, refl)
hand_over_to-Rests true none k e n c a =
    (record { no_channel = c; at_rest = a; no_sock = λ d. absurd (n d) }, refl)
hand_over_to-Rests true (some fd) k e n c a =
    (record { no_channel = c; at_rest = a; no_sock = λ d. absurd (n d) }, rw e (omega arith))

pub not_disconnected : connected ≡ disconnected → ⊥
not_disconnected e = cc

pub gone-Rests :
    (k : Connector) → k.channel ≡ none → k.sock ≡ none → k.state ≡ disconnected → Rests k
gone-Rests k c s d = record { no_channel = c; at_rest = ap is_connecting d; no_sock = λ _. s }

pub give_up-Gives :
    (k : Connector) → Held k → Gives (λ k'. Rests k' × (descriptors k' ≡ descriptors k)) (give_up k)
give_up-Gives k (c, h, r) =
    let (p, e) = drop_channel-gone c k h r in
    let k' : Connector = record (assign_sock none (dropped k p)) { state = disconnected } in
    (k', rw e refl, (gone-Rests k' refl refl refl, refl))
