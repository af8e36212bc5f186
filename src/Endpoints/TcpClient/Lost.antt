-- ===== src/Endpoints/TcpClient/Lost.antt =====
-- Connections that the client gives up.
use clear_moon.Prelude.{
  ℕ, ◌<◌, ◌≡◌, refl, sym, ap, ◌∙◌, subst, Bool, true, false, not, ◌&&◌, ◌||◌, List, [], ◌∷◌, Option,
  none, some, ◌==◌, ==_iff, if◌then◌else◌, arith, >>=-eq-some,
}
use clear_moon.Reactor.Channel.Listed.{Registered}
use clear_moon.Tcp.Connection.{
  Connection, StateE, connecting, connected, disconnecting, disconnected, is_connected,
  is_disconnected, is_writing, shut_write, log, handle_close, shutdown, shutdown_in_loop,
}
use clear_moon.Tcp.Connection.Closing.{handle_close-Closed}
use clear_moon.Endpoints.Connector.{Connector}
use clear_moon.Endpoints.Connector.Rests.{Steady}
use clear_moon.Endpoints.Connector.Steady.{stop-Gives}
use clear_moon.Endpoints.Connector
use clear_moon.Endpoints.TcpClient.{
  ConnCall, destroyed, shut, TcpClient, connect, closes_in, let_go, shut_of, disconnect,
  new_connection, is_it, remove_connection, ClientOp, connects, disconnects, opens, closes, apply,
  run,
}

abbrev pub is_destroyed : ℕ → ConnCall → Bool
is_destroyed c (destroyed d) = d == c
is_destroyed c _ = false

-- Whether `connectDestroyed` was called on the connection.
abbrev pub was_destroyed : ℕ → List ConnCall → Bool
was_destroyed c [] = false
was_destroyed c (x ∷ l) = is_destroyed c x || was_destroyed c l

-- The connection was there, the client does not hold it, and it was destroyed or not, as `b` says.
pub record Forgotten (c : ℕ) (b : Bool) (s : TcpClient) : Type 0 where
  pub old : c < s.next_id
  pub not_held : is_it c s.connection ≡ false
  pub fate : was_destroyed c s.calls ≡ b

some_inj : {a b : TcpClient} → some a ≡ some b → a ≡ b
some_inj e = cc

pair_inj : {a b : TcpClient × Connection} → some a ≡ some b → a ≡ b
pair_inj e = cc

no : {a : Bool} → a ≡ false → a ≡ true → ⊥
no h k = cc

remove_connection-Forgotten :
    (c d : ℕ) (b : Bool) (s : TcpClient) → Forgotten c b s → Forgotten c b (remove_connection d s)
unfolding remove_connection
remove_connection-Forgotten c d b s f = by_test s.connection (is_it d s.connection) refl refl
  where
    by_test :
        (o : Option ℕ) (t : Bool)
        → s.connection ≡ o
        → is_it d s.connection ≡ t
        → Forgotten c b
            (if t then record s { connection = none; calls = destroyed d ∷ s.calls } else s)
    by_test o false e g = f
    by_test none true e g = absurd (no (ap (is_it d) e) g)
    by_test (some x) true e g =
        let same : (x == d) ≡ true = ap (is_it d) (sym e) ∙ g in
        let other : (x == c) ≡ false = ap (is_it c) (sym e) ∙ f.not_held in
        let off : (d == c) ≡ false =
          ground (arith, ==_iff x d, ==_iff x c, ==_iff d c, same, other) in
        record {
          old = f.old;
          not_held = refl;
          fate = ap (λ t. t || was_destroyed c s.calls) off ∙ f.fate;
        }

let_go-Forgotten : (c : ℕ) (b : Bool) (s : TcpClient) → Forgotten c b s → Forgotten c b (let_go s)
let_go-Forgotten c b s f = record { old = f.old; not_held = refl; fate = f.fate }

choose-Forgotten :
    (t : Bool) (c : ℕ) (b : Bool) (s r : TcpClient)
    → Forgotten c b s
    → Forgotten c b r
    → Forgotten c b (if t then s else r)
choose-Forgotten true c b s r f g = f
choose-Forgotten false c b s r f g = g

shut_of-Forgotten :
    (c : ℕ) (b : Bool) (o : Option ℕ) (conn : Connection) (s : TcpClient)
    {r : TcpClient × Connection}
    → Forgotten c b s
    → shut_of o conn s ≡ some r
    → Forgotten c b (r.0)
shut_of-Forgotten c b none conn s f e = subst (λ x. Forgotten c b (x.0)) (pair_inj e) f
shut_of-Forgotten c b (some d) conn s f e =
    let noted : TcpClient = record s { calls = shut d ∷ s.calls } in
    let g : Forgotten c b noted = record { old = f.old; not_held = f.not_held; fate = f.fate } in
    let (conn', h, j) =
      >>=-eq-some (shutdown true conn)
        (λ conn'.
          some (let_go (if closes_in conn conn' then remove_connection d noted else noted), conn'))
        e in
    subst (λ x. Forgotten c b (x.0)) (pair_inj j)
      (let_go-Forgotten c b _ (
        choose-Forgotten (closes_in conn conn') c b _ _ (remove_connection-Forgotten c d b noted g)
          g))

apply-Forgotten :
    (c : ℕ) (b : Bool) (o : ClientOp) (s : TcpClient) {r : TcpClient}
    → Forgotten c b s
    → apply o s ≡ some r
    → Forgotten c b r
unfolding connect disconnect new_connection
apply-Forgotten c b (connects fd result address) s f e =
    let (k, g, h) =
      >>=-eq-some (Connector.connect fd result address s.connector)
        (λ k. some (record s { connector = k })) e in
    subst (Forgotten c b) (some_inj h)
      (record { old = f.old; not_held = f.not_held; fate = f.fate })
apply-Forgotten c b (disconnects conn) s f e =
    let (r, g, h) = >>=-eq-some (disconnect conn s) (λ r. some (r.0)) e in
    let (k, i, j) =
      >>=-eq-some (Connector.stop s.connector)
        (λ k. shut_of s.connection conn (record s { connector = k })) g in
    subst (Forgotten c b) (some_inj h) (
      shut_of-Forgotten c b s.connection conn (record s { connector = k })
        (record { old = f.old; not_held = f.not_held; fate = f.fate }) j)
apply-Forgotten c b opens s f e = subst (Forgotten c b) (some_inj e) (record {
  old = omega (arith, f.old);
  not_held = ground (arith, ==_iff s.next_id c, f.old);
  fate = f.fate;
})
apply-Forgotten c b (closes d) s f e =
    subst (Forgotten c b) (some_inj e) (remove_connection-Forgotten c d b s f)

run-Forgotten :
    (c : ℕ) (b : Bool) (os : List ClientOp) (s : TcpClient) {r : TcpClient}
    → Forgotten c b s
    → run os s ≡ some r
    → Forgotten c b r
unfolding run
run-Forgotten c b [] s f e = subst (Forgotten c b) (some_inj e) f
run-Forgotten c b (o ∷ os) s f e =
    let (m, g, h) = >>=-eq-some (apply o s) (run os) e in
    run-Forgotten c b os m (apply-Forgotten c b o s f g) h

-- Whether `shutdown` closes the connection there and then.
abbrev pub idle : Connection → Bool
idle conn = is_connected conn.state && not (is_writing conn)

-- `shutdown` in the loop's thread succeeds, and closes an idle connection.
shutdown-closes :
    (conn : Connection)
    → Registered conn.channel conn.poller
    → (conn' : Connection) × (shutdown true conn ≡ some conn') × (closes_in conn conn' ≡ idle conn)
unfolding shutdown shutdown_in_loop
shutdown-closes conn r = by_state conn.state (is_writing conn) refl refl
  where
    Closes : StateE → Bool → Option Connection → Type 0
    Closes s w o =
        (conn' : Connection) × (o ≡ some conn')
        × ((not (is_disconnected s) && is_disconnected conn'.state) ≡ (is_connected s && not w))

    noted : Connection
    noted = log shut_write (record conn { state = disconnecting })

    At : StateE → Bool → Type 0
    At s w =
        Closes s w
          (if is_connected s then if w then some noted else handle_close noted else some conn)

    by_state : (s : StateE) (w : Bool) → conn.state ≡ s → is_writing conn ≡ w → At s w
    by_state connecting w e g = (conn, refl, ap is_disconnected e)
    by_state disconnecting w e g = (conn, refl, ap is_disconnected e)
    by_state disconnected w e g = (conn, refl, refl)
    by_state connected true e g = (noted, refl, refl)
    by_state connected false e g =
        let (k, h, z) = handle_close-Closed noted refl r in
        (k, h, ap is_disconnected z.state_closed)

-- What comes of the connection that the client holds.
shut-Forgotten :
    (c : ℕ) (s : TcpClient) (t : Bool)
    → s.connection ≡ some c
    → c < s.next_id
    → was_destroyed c s.calls ≡ false
    → Forgotten c t (let_go (if t then remove_connection c s else s))
unfolding remove_connection
shut-Forgotten c s true e h a =
    rw (e, (==_iff c c).1 refl)
      (record {
        old = h;
        not_held = refl;
        fate = ap (λ t. t || was_destroyed c s.calls) ((==_iff c c).1 refl);
      })
shut-Forgotten c s false e h a = record { old = h; not_held = refl; fate = a }

-- Where the calls succeed, the connection was destroyed or not, as `b` says.
abbrev pub Fated : ℕ → Bool → Option TcpClient → Type 0
Fated c b none = Unit
Fated c b (some z) = was_destroyed c z.calls ≡ b

run-Fated :
    (c : ℕ) (b : Bool) (os : List ClientOp) (s : TcpClient) → Forgotten c b s → Fated c b (run os s)
run-Fated c b os s f = by_result (run os s) refl
  where
    by_result : (o : Option TcpClient) → run os s ≡ o → Fated c b o
    by_result none e = tt
    by_result (some z) e = (run-Forgotten c b os s f e).fate

-- A client whose connector is in order, and that holds a connection whose channel is registered, calls
-- `disconnect` in the loop's thread, which succeeds. Where the connection is connected and does not wait
-- to write, it closes in the middle of that, and `connectDestroyed` is called on it. Where it waits to
-- write, or was not connected any more, the client forgets it: whatever comes behind, its own close
-- callback included, `connectDestroyed` is never called.
pub disconnected_is_destroyed_if_idle :
    (c : ℕ) (conn : Connection) (s : TcpClient) (os : List ClientOp)
    → s.connection ≡ some c
    → c < s.next_id
    → was_destroyed c s.calls ≡ false
    → Steady s.connector
    → Registered conn.channel conn.poller
    → (r : TcpClient × Connection) × (disconnect conn s ≡ some r)
      × Fated c (is_connected conn.state && not (is_writing conn)) (run os (r.0))
unfolding disconnect
disconnected_is_destroyed_if_idle c conn s os e h a w g =
    let (k, f, _) = stop-Gives s.connector w in
    let (conn', u, v) = shutdown-closes conn g in
    let noted : TcpClient = record s { connector = k; calls = shut c ∷ s.calls } in
    let shut_client : Bool → TcpClient =
      λ t. let_go (if t then remove_connection c noted else noted) in
    (
      (shut_client (closes_in conn conn'), conn'),
      rw f (ap (λ o. shut_of o conn (record s { connector = k })) e ∙ rw u refl),
      run-Fated c (idle conn) os (shut_client (closes_in conn conn')) (
          subst (λ t. Forgotten c t (shut_client (closes_in conn conn'))) v
            (shut-Forgotten c noted (closes_in conn conn') e h a)),
    )
