-- ===== src/Endpoints/Connector/Steady.antt =====
-- What each operation makes of the states of a connector.
use clear_moon.Prelude.{
  ℕ, suc, ◌≡◌, refl, ap, ◌∙◌, Bool, true, false, not, ◌∷◌, Option, none, some, ◌>>=◌, if◌then◌else◌,
  arith, ==_iff,
}
use clear_moon.Reactor.Epoller.{Epoller}
use clear_moon.Reactor.Channel.{enable_writing, remove, writing_on, removal}
use clear_moon.Reactor.Channel
use clear_moon.Reactor.Channel.Registered.{apply-Good}
use clear_moon.Reactor.Channel.Listed.{Registered}
use clear_moon.Endpoints.Connector.{
  disconnected, connecting, connected, Connector, is_connecting, assign_sock, drop_channel,
  cancel_of, cancel_timeout, hand_over, Connected, at_once, in_progress, refused, connect,
  stop_connecting, stop, give_up, handle_write, handle_error, handle_timeout,
}
use clear_moon.Endpoints.Connector.Rests.{
  has_id, descriptors, Underway, Rests, Steady, Kept, Gives, dropped, drop_channel-gone, Held, held,
  Rests-Steady, cancel_of-Rests, hand_over_to-Rests, not_disconnected, gone-Rests, give_up-Gives,
}

stays-Gives : (k : Connector) → Steady k → Gives (Kept (descriptors k)) (some k)
stays-Gives k s = (k, refl, (s, refl))

idle-Kept : (n : ℕ) (k : Connector) → Rests k → descriptors k ≡ n → Kept n k
idle-Kept n k r e = (Rests-Steady k r, e)

-- The attempt has come to a connection.
connects-Gives :
    (o : Option ℕ) (k : Connector)
    → Underway k
    → Gives
        (Kept (descriptors k))
        (drop_channel (record (cancel_of o k) { state = connected }) >>= λ k. some (hand_over k))
connects-Gives o k u =
    let (p, e) = dropped_of o in
    let k' : Connector = dropped (record (cancel_of o k) { state = connected }) p in
    let (r, d) = hand_over_to-Rests k'.has_callback k'.sock k' refl not_disconnected refl refl in
    (hand_over k', rw e refl, idle-Kept (descriptors k) (hand_over k') r (d ∙ same o))
  where
    dropped_of :
        (o : Option ℕ)
        → (p : Epoller) × (drop_channel (record (cancel_of o k) { state = connected })
            ≡ some (dropped (record (cancel_of o k) { state = connected }) p))
    dropped_of none =
        drop_channel-gone u.channel_of (record k { state = connected }) u.has_channel
          u.is_registered
    dropped_of (some i) =
        drop_channel-gone u.channel_of (record (cancel_of (some i) k) { state = connected })
          u.has_channel u.is_registered

    same : (o : Option ℕ) → descriptors (cancel_of o k) ≡ descriptors k
    same none = refl
    same (some i) = refl

pub handle_write-Gives :
    (failed : Bool) (k : Connector)
    → Steady k
    → Gives (Kept (descriptors k)) (handle_write failed k)
unfolding handle_write
handle_write-Gives failed k s = by_tests (is_connecting k.state) failed refl
  where
    by_tests :
        (a b : Bool)
        → is_connecting k.state ≡ a
        → Gives (Kept (descriptors k)) (
            if not a
            then some k
            else if b
            then give_up k
            else drop_channel (record (cancel_timeout k) { state = connected }) >>= λ k.
                some (hand_over k))
    by_tests false b e = stays-Gives k s
    by_tests true true e =
        let (k', g, (r, d)) = give_up-Gives k (held k (s.0 e)) in
        (k', g, idle-Kept (descriptors k) k' r d)
    by_tests true false e = connects-Gives k.connect_timeout_id k (s.0 e)

pub handle_error-Gives : (k : Connector) → Steady k → Gives (Kept (descriptors k)) (handle_error k)
unfolding handle_error
handle_error-Gives k s = by_test (is_connecting k.state) refl
  where
    by_test :
        (a : Bool)
        → is_connecting k.state ≡ a
        → Gives
            (Kept (descriptors k))
            (if a then (do k ← give_up k; some (cancel_timeout k)) else some k)
    by_test false e = stays-Gives k s
    by_test true e =
        let (k', g, (r, d)) = give_up-Gives k (held k (s.0 e)) in
        let (r', d') = cancel_of-Rests k'.connect_timeout_id k' r in
        (cancel_timeout k', rw g refl, idle-Kept (descriptors k) (cancel_timeout k') r' (d' ∙ d))

pub handle_timeout-Gives :
    (k : Connector)
    → (is_connecting k.state ≡ true → Held k)
    → (is_connecting k.state ≡ false → Rests k)
    → Gives (Kept (descriptors k)) (handle_timeout k)
unfolding handle_timeout
handle_timeout-Gives k h s = by_test (is_connecting k.state) refl
  where
    by_test :
        (a : Bool)
        → is_connecting k.state ≡ a
        → Gives (Kept (descriptors k)) (
            if not a
            then some k
            else give_up k >>= λ k. some (record k { connect_timeout_id = none }))
    by_test false e = (k, refl, idle-Kept (descriptors k) k (s e) refl)
    by_test true e =
        let (k', g, (r, d)) = give_up-Gives k (h e) in
        let k'' : Connector = record k' { connect_timeout_id = none } in
        let r' : Rests k'' = record {
          no_channel = r.no_channel;
          at_rest = r.at_rest;
          no_sock = r.no_sock;
        } in
        (k'', rw g refl, idle-Kept (descriptors k) k'' r' d)

cancels-Gives :
    (n : ℕ) (k : Connector) → Rests k → descriptors k ≡ n → Gives (Kept n) (some (cancel_timeout k))
cancels-Gives n k r d =
    let (r', d') = cancel_of-Rests k.connect_timeout_id k r in
    (cancel_timeout k, refl, idle-Kept n (cancel_timeout k) r' (d' ∙ d))

pub stop-Gives : (k : Connector) → Steady k → Gives (Kept (descriptors k)) (stop k)
unfolding stop
stop-Gives k s = by_test (is_connecting k.state) refl
  where
    gives_up :
        Underway k
        → Gives
            (Kept (descriptors k))
            (stop_connecting k.channel k >>= λ k. some (cancel_timeout k))
    gives_up u =
        let (p, e) = drop_channel-gone u.channel_of k u.has_channel u.is_registered in
        let k' : Connector = assign_sock none (record (dropped k p) { state = disconnected }) in
        let g : stop_connecting k.channel k ≡ some k' =
          ap (λ o. stop_connecting o k) u.has_channel ∙ rw e refl in
        let (k'', h, m) = cancels-Gives (descriptors k) k' (gone-Rests k' refl refl refl) refl in
        (k'', ap (λ o. o >>= λ k. some (cancel_timeout k)) g ∙ h, m)

    by_test :
        (a : Bool)
        → is_connecting k.state ≡ a
        → Gives
            (Kept (descriptors k))
            ((if a then stop_connecting k.channel k else some k) >>= λ k. some (cancel_timeout k))
    by_test true e = gives_up (s.0 e)
    by_test false e = cancels-Gives (descriptors k) k (s.1 e) refl

pub connect-Gives :
    (fd : ℕ) (result : Connected) (address : ℕ) (k : Connector)
    → Steady k
    → is_connecting k.state ≡ false
    → Registered (Channel.create address fd) k.poller
    → Gives (Kept (suc (descriptors k))) (connect fd result address k)
unfolding connect has_id
connect-Gives fd at_once address k s a r =
    let k' : Connector = record (assign_sock (some fd) k) { state = connected } in
    let (q, d) =
      hand_over_to-Rests k'.has_callback k'.sock k' refl not_disconnected (s.1 a).no_channel refl in
    (hand_over k', refl, idle-Kept (suc (descriptors k)) (hand_over k') q (d ∙ omega arith))
connect-Gives fd in_progress address k s a r =
    let k' : Connector = record (assign_sock (some fd) k) { state = connecting } in
    let (c, p, e, q, f, d, b) = apply-Good writing_on (Channel.create address fd) k.poller r in
    let u : Connector = record k' {
      channel = some c;
      poller = p;
      connect_timeout_id = some k.next_timer;
      next_timer = suc k.next_timer;
      armed = k.next_timer ∷ k.armed;
    } in
    let m : Underway u = record {
      channel_of = c;
      has_channel = refl;
      is_registered = q;
      id_of = k.next_timer;
      has_timeout = refl;
      is_armed = ground (arith, ==_iff k.next_timer k.next_timer);
    } in
    (u, rw (s.1 a).no_channel (rw e refl), ((λ _. m, λ e. cc), omega arith))
connect-Gives fd refused address k s a r =
    let k' : Connector = assign_sock none (assign_sock (some fd) k) in
    (
      k',
      refl,
      idle-Kept (suc (descriptors k)) k'
          (record { no_channel = (s.1 a).no_channel; at_rest = a; no_sock = λ _. refl })
          (omega arith),
    )
