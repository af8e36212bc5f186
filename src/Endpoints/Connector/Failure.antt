-- ===== src/Endpoints/Connector/Failure.antt =====
-- Attempts that fail.
use clear_moon.Prelude.{
  ℕ, suc, ◌≡◌, refl, sym, ap, ◌∙◌, subst, Bool, true, false, not, ◌&&◌, ◌||◌, List, ◌∷◌, Option,
  none, some, ◌>>=◌, ◌>>◌, assert, if◌then◌else◌, arith, ==_iff,
}
use clear_moon.Reactor.Epoller.{Channel, Epoller, Revents}
use clear_moon.Reactor.Channel.{call_if, writing_on}
use clear_moon.Reactor.Channel
use clear_moon.Reactor.Channel.Registered.{apply-Good}
use clear_moon.Reactor.Channel.Listed.{Registered}
use clear_moon.Endpoints.Connector.{
  disconnected, connecting, Connector, is_connecting, assign_sock, drop_id, cancel_of,
  cancel_timeout, in_progress, connect, handle_write, handle_error, handle_timeout, fire, lives_at,
  reads, handle_event_at,
}
use clear_moon.Endpoints.Connector.Rests.{
  Underway, Steady, Held, give_up-Gives, has_id, drop_channel-gone, dropped,
}

reads_live :
    (c : Channel) (f : Connector → Option Connector) (k : Connector)
    → k.channel ≡ some c
    → reads c.address f k ≡ f k
reads_live c f k h =
    ap (λ o. assert (lives_at c.address o) >> f k) h ∙ rw ((==_iff c.address c.address).1 refl) refl

reads_gone :
    (a : ℕ) (f : Connector → Option Connector) (k : Connector)
    → k.channel ≡ none
    → reads a f k ≡ none
reads_gone a f k h = ap (λ o. assert (lives_at a o) >> f k) h

passed_over : (b : Bool) (k : Connector) → call_if b none k ≡ some k
passed_over true k = refl
passed_over false k = refl

cancel_of-channel : (o : Option ℕ) (k : Connector) → (cancel_of o k).channel ≡ k.channel
cancel_of-channel none k = refl
cancel_of-channel (some i) k = refl

error_frees :
    (k : Connector)
    → is_connecting k.state ≡ true
    → Held k
    → (k' : Connector) × (handle_error k ≡ some k') × (k'.channel ≡ none)
unfolding handle_error
error_frees k e h =
    let (k', g, (r, d)) = give_up-Gives k h in
    (cancel_timeout k', rw e (rw g refl), cancel_of-channel k'.connect_timeout_id k' ∙ r.no_channel)

-- The four callbacks, with the tests of the events as Booleans.
abbrev called : ℕ → Bool → Bool → Bool → Bool → Bool → Connector → Option Connector
called address failed a m b w k =
    call_if a (some handle_error) k
    >>= reads address (call_if m none)
    >>= reads address (call_if b (some handle_error))
    >>= reads address (call_if w (some (handle_write failed)))

called-cases :
    (c : Channel) (failed a m b w : Bool) (k : Connector)
    → is_connecting k.state ≡ true
    → k.channel ≡ some c
    → Registered c k.poller
    → called c.address failed a m b w k
      ≡ (if a || b then none else if w then handle_write failed k else some k)
called-cases c failed true m b w k e h g =
    let (k', f, n) = error_frees k e (c, h, g) in
    rw f (
      ap
        (λ o.
          o
          >>= reads c.address (call_if b (some handle_error))
          >>= reads c.address (call_if w (some (handle_write failed))))
        (reads_gone c.address (call_if m none) k' n))
called-cases c failed false m true w k e h g =
    let (k', f, n) = error_frees k e (c, h, g) in
    ap
      (λ o.
        o
        >>= reads c.address (call_if true (some handle_error))
        >>= reads c.address (call_if w (some (handle_write failed))))
      (reads_live c (call_if m none) k h ∙ passed_over m k)
    ∙ ap (λ o. o >>= reads c.address (call_if w (some (handle_write failed))))
        (reads_live c handle_error k h ∙ f)
    ∙ reads_gone c.address (call_if w (some (handle_write failed))) k' n
called-cases c failed false m false w k e h g =
    ap
      (λ o.
        o
        >>= reads c.address (call_if false (some handle_error))
        >>= reads c.address (call_if w (some (handle_write failed))))
      (reads_live c (call_if m none) k h ∙ passed_over m k)
    ∙ ap (λ o. o >>= reads c.address (call_if w (some (handle_write failed))))
        (reads_live c (call_if false (some handle_error)) k h)
    ∙ reads_live c (call_if w (some (handle_write failed))) k h
    ∙ last w
  where
    last :
        (w : Bool)
        → call_if w (some (handle_write failed)) k ≡ (if w then handle_write failed k else some k)
    last true = refl
    last false = refl

-- The channel of an attempt handles what the poller reports of it as long as that is no error: it goes
-- on to `handleWrite`, where it can be written. Where an error is reported, or the end of the connection
-- with nothing to read, `handleError` frees the channel under its own `handleEvent`, which reads it
-- again.
pub handle_event_at-cases :
    (c : Channel) (failed : Bool) (r : Revents) (k : Connector)
    → is_connecting k.state ≡ true
    → k.channel ≡ some c
    → Registered c k.poller
    → handle_event_at c.address failed r k ≡ (
        if r.err || (r.hup && not r.in_)
        then none
        else if r.out
        then handle_write failed k
        else some k)
unfolding handle_event_at
handle_event_at-cases c failed r k e h g =
    called-cases c failed r.err (r.in_ || r.rdhup || r.pri) (r.hup && not r.in_) r.out k e h g

some_inj : {a b : Connector} → some a ≡ some b → a ≡ b
some_inj e = cc

has_id-later : (i j : ℕ) (l : List ℕ) → has_id i l ≡ true → has_id i (j ∷ l) ≡ true
unfolding has_id
has_id-later i j l e = ground arith

-- A new attempt, of a connector that has no socket.
abbrev under_way : ℕ → Channel → Epoller → Connector → Connector
under_way fd c p k = record k {
  state = connecting;
  channel = some c;
  sock = some fd;
  poller = p;
  connect_timeout_id = some k.next_timer;
  next_timer = suc k.next_timer;
  armed = k.next_timer ∷ k.armed;
}

abbrev Ended : ℕ → Connector → Type 0
Ended i k =
    (is_connecting k.state ≡ true)
    × (has_id i k.armed ≡ true)
    × ((k' : Connector) × (fire i k ≡ some k') × (k'.state ≡ disconnected))

ended :
    (i : ℕ) (k : Connector) (c : Channel)
    → k.channel ≡ some c
    → is_connecting k.state ≡ true
    → Registered c k.poller
    → has_id i k.armed ≡ true
    → Ended i k
unfolding handle_timeout
ended i k c h s r a =
    let (p, e) = drop_channel-gone c (record k { armed = drop_id i k.armed }) h r in
    let k' : Connector =
      record (assign_sock none (dropped (record k { armed = drop_id i k.armed }) p)) {
        state = disconnected;
        connect_timeout_id = none;
      } in
    (s, a, (k', rw s (rw e refl), refl))

-- An attempt that comes to nothing in `handleWrite` leaves its timer in the loop: when a new attempt is
-- under way, that timer is still armed, and ends the new attempt when it fires.
pub stale_timeout_ends_attempt :
    (fd address i : ℕ) (k : Connector) {k1 k2 : Connector}
    → Steady k
    → is_connecting k.state ≡ true
    → has_id i k.armed ≡ true
    → handle_write true k ≡ some k1
    → Registered (Channel.create address fd) k1.poller
    → connect fd in_progress address k1 ≡ some k2
    → (is_connecting k2.state ≡ true)
      × (has_id i k2.armed ≡ true)
      × ((k3 : Connector) × (fire i k2 ≡ some k3) × (k3.state ≡ disconnected))
unfolding handle_write connect
stale_timeout_ends_attempt fd address i k {k1} {k2} s c a w r n =
    let u : Underway k = s.0 c in
    let (p, e) = drop_channel-gone u.channel_of k u.has_channel u.is_registered in
    let m : Connector = record (assign_sock none (dropped k p)) { state = disconnected } in
    let same : m ≡ k1 = some_inj (sym (rw c (rw e refl)) ∙ w) in
    let r' : Registered (Channel.create address fd) m.poller =
      subst (λ x. Registered (Channel.create address fd) x.poller) (sym same) r in
    let (d, p', f, g, fr, fd', ad) =
      apply-Good writing_on (Channel.create address fd) m.poller r' in
    let q : Connector = under_way fd d p' m in
    let same' : q ≡ k2 =
      some_inj (sym (rw f refl) ∙ ap (connect fd in_progress address) same ∙ n) in
    subst (Ended i) same' (ended i q d refl refl g (has_id-later i k.next_timer k.armed a))
