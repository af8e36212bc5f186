-- ===== src/Tcp/Connection/Closing.antt =====
-- What is left of a connection that is closed.
use clear_moon.Prelude.{
  ℕ, ◌≡◌, ◌≢◌, refl, sym, ap, ◌∙◌, subst, ◌⊎◌, inl, inr, Bool, true, false, List, [], ◌∷◌, Option,
  none, some, arith, ◌==◌, Bool-cases, if◌then◌else◌,
}
use clear_moon.OrdMap.{OrdMap, find, number_key}
use clear_moon.Reactor.Epoller.{Channel, Epoller, Events, Index, deleted, new, present}
use clear_moon.Reactor.Epoller.Interest.{interest}
use clear_moon.Reactor.Channel.{remove, removal}
use clear_moon.Reactor.Channel.Registered.{apply-Good, remove_unwatches}
use clear_moon.Reactor.Channel.Listed.{Registered, address_held, events_held}
use clear_moon.Tcp.Connection.{
  Connection, StateE, connecting, connected, disconnecting, disconnected, Armed, Timers,
  RetransmitEntry, cancel, cancel_each, without_id, cancel_idle_timer, cancel_retransmits,
  drop_file, log_if, close_callback, closed_fd, Effect, handle_close, is_open, is_disconnected,
  with_channel,
}

-- A timer of the loop that this id names.
abbrev pub Runs : ℕ → List Armed → Type 0
Runs n [] = ⊥
Runs n (a ∷ rest) = (a.timer_id ≡ n) ⊎ Runs n rest

without_id-Runs :
    (k n : ℕ) (armed : List Armed) → Runs k (without_id n armed) → Runs k armed × (k ≢ n)
unfolding without_id
without_id-Runs k n [] h = absurd h
without_id-Runs k n (a ∷ rest) h = elim (Bool-cases (a.timer_id == n)) [
  | inl e ↦
      let (j, d) =
        without_id-Runs k n rest
          (subst (λ t. Runs k (if t then without_id n rest else a ∷ without_id n rest)) e h) in
      (inr j, d)
  | inr e ↦
      elim (subst (λ t. Runs k (if t then without_id n rest else a ∷ without_id n rest)) e h) [
        | inl f ↦ (inl f, λ g. ground arith)
        | inr j ↦ let (i, d) = without_id-Runs k n rest j in (inr i, d)
      ]
]

cancel-Runs :
    (k : ℕ) (timer : Option ℕ) (ts : Timers)
    → Runs k (cancel timer ts).armed
    → Runs k ts.armed × (timer ≢ some k)
unfolding cancel
cancel-Runs k none ts h = (h, λ e. cc)
cancel-Runs k (some n) ts h = let (i, d) = without_id-Runs k n ts.armed h in (i, λ e. d (cc))

-- An entry of the map with this timer.
abbrev pub Times : ℕ → OrdMap ℕ RetransmitEntry → Type 0
Times k [] = ⊥
Times k ((seq, entry) ∷ rest) = (entry.timer ≡ some k) ⊎ Times k rest

cancel_each-Runs :
    (k : ℕ) (m : OrdMap ℕ RetransmitEntry) (ts : Timers)
    → Runs k (cancel_each m ts).armed
    → Runs k ts.armed × (Times k m → ⊥)
unfolding cancel_each
cancel_each-Runs k [] ts h = (h, λ t. t)
cancel_each-Runs k ((seq, entry) ∷ rest) ts h =
    let (i, d) = cancel_each-Runs k rest (cancel entry.timer ts) h in
    let (j, e) = cancel-Runs k entry.timer ts i in (j, neither e d)
  where
    neither : {A B : Type 0} → (A → ⊥) → (B → ⊥) → A ⊎ B → ⊥
    neither f g (inl a) = f a
    neither f g (inr b) = g b

-- Neither the map of the poller nor the interest list of the kernel has the descriptor.
pub record Unwatched (fd : ℕ) (p : Epoller) : Type 0 where
  pub unmapped : find fd p.channel_map ≡ none
  pub list : OrdMap ℕ Events
  pub accepted : interest p.calls ≡ some list
  pub unlisted : find fd list ≡ none

-- What the closing is seen to do: the file is closed, and then the callback is called.
abbrev pub closing : Bool → Option ℕ → List Effect → List Effect
closing true none es = close_callback ∷ es
closing true (some fd) es = close_callback ∷ (closed_fd fd ∷ es)
closing false none es = es
closing false (some fd) es = closed_fd fd ∷ es

-- Nothing of the connection is left behind in the loop, and no file is open.
pub record Closed (c c' : Connection) : Type 0 where
  pub state_closed : c'.state ≡ disconnected
  pub not_watched : Unwatched c.channel.fd c'.poller
  pub seen : c'.effects ≡ closing c.callbacks.on_close c.file_fd c.effects
  pub no_file : (c'.file_fd ≡ none) × (c'.sending_file ≡ false)
  pub no_timers : (c'.idle_timer ≡ none) × (c'.pending_retrans ≡ [])
  pub timers_gone :
      (k : ℕ)
      → Runs k c'.timers.armed
      → Runs k c.timers.armed × (c.idle_timer ≢ some k) × (Times k c.pending_retrans → ⊥)

held_nothing :
    (i : Index) (c : Channel) → i ≢ present → (address_held i c ≡ none) × (events_held i c ≡ none)
held_nothing deleted c n = (refl, refl)
held_nothing new c n = (refl, refl)
held_nothing present c n = absurd (n refl)

absent-Unwatched :
    (c : Channel) (p : Epoller) → Registered c p → c.index ≢ present → Unwatched c.fd p
absent-Unwatched c p r n = record {
  unmapped = r.mapped ∙ (held_nothing c.index c n).0;
  list = r.list;
  accepted = r.accepted;
  unlisted = r.watched ∙ (held_nothing c.index c n).1;
}

pair_inj :
    {c d : Channel} {p q : Epoller}
    → ◌≡◌ {A = Option (Channel × Epoller)} (some (c, p)) (some (d, q))
    → (c ≡ d) × (p ≡ q)
pair_inj e = (cc, cc)

-- The channel is taken off the poller and the kernel's list.
remove-Unwatched :
    (c : Channel) (p : Epoller)
    → Registered c p
    → (c' : Channel) × (p' : Epoller) × (remove c p ≡ some (c', p')) × Unwatched c.fd p'
remove-Unwatched c p r =
    let (c1, p1, e1, w) = remove_unwatches c p r in
    let (c2, p2, e2, r2, f2, d2, a2) = apply-Good removal c p r in
    let (ec, ep) = pair_inj (sym e1 ∙ e2) in
    let u : Unwatched c2.fd p2 = absent-Unwatched c2 p2 r2 (subst (λ x. x.index ≢ present) ec w) in
    (c2, p2, e2, subst (λ n. Unwatched n p2) d2 u)

-- What `handleClose` has before its last step.
record Cleared (c m : Connection) : Type 0 where
  state_closed : m.state ≡ disconnected
  not_watched : Unwatched c.channel.fd m.poller
  no_file : (m.file_fd ≡ none) × (m.sending_file ≡ false)
  seen : m.effects ≡ closing false c.file_fd c.effects
  kept :
      (m.timers ≡ c.timers)
      × (m.idle_timer ≡ c.idle_timer)
      × (m.pending_retrans ≡ c.pending_retrans)

called :
    (fd : Option ℕ) (es : List Effect) → close_callback ∷ closing false fd es ≡ closing true fd es
called none es = refl
called (some fd) es = refl

Cleared-Closed :
    (b : Bool) (c m : Connection)
    → c.callbacks.on_close ≡ b
    → Cleared c m
    → Closed c (log_if b close_callback (cancel_retransmits (cancel_idle_timer m)))
unfolding cancel_retransmits cancel_idle_timer
Cleared-Closed b c m o k = by_callback b o
  where
    gone :
        (n : ℕ)
        → Runs n (cancel_retransmits (cancel_idle_timer m)).timers.armed
        → Runs n c.timers.armed × (c.idle_timer ≢ some n) × (Times n c.pending_retrans → ⊥)
    gone n h =
        let (t, i, p) = k.kept in
        let (a, d) = cancel_each-Runs n m.pending_retrans (cancel m.idle_timer m.timers) h in
        let (b, e) = cancel-Runs n m.idle_timer m.timers a in
        (subst (λ x. Runs n x.armed) t b, rw (← i) e, rw (← p) d)

    by_callback :
        (b : Bool)
        → c.callbacks.on_close ≡ b
        → Closed c (log_if b close_callback (cancel_retransmits (cancel_idle_timer m)))
    by_callback true o = record {
      state_closed = k.state_closed;
      not_watched = k.not_watched;
      seen =
          ap (λ es. close_callback ∷ es) k.seen
          ∙ called c.file_fd c.effects
          ∙ ap (λ x. closing x c.file_fd c.effects) (sym o);
      no_file = k.no_file;
      no_timers = (refl, refl);
      timers_gone = gone;
    }
    by_callback false o = record {
      state_closed = k.state_closed;
      not_watched = k.not_watched;
      seen = k.seen ∙ ap (λ x. closing x c.file_fd c.effects) (sym o);
      no_file = k.no_file;
      no_timers = (refl, refl);
      timers_gone = gone;
    }

dropped-Cleared :
    (fd : Option ℕ) (c m : Connection)
    → c.file_fd ≡ fd
    → m.file_fd ≡ fd
    → m.state ≡ disconnected
    → Unwatched c.channel.fd m.poller
    → m.effects ≡ c.effects
    → (m.timers ≡ c.timers)
      × (m.idle_timer ≡ c.idle_timer)
      × (m.pending_retrans ≡ c.pending_retrans)
    → Cleared c (drop_file m) × ((drop_file m).callbacks ≡ m.callbacks)
unfolding drop_file
dropped-Cleared none c m f g s u e k = rw g (
  record {
    state_closed = s;
    not_watched = u;
    no_file = (refl, refl);
    seen = e ∙ ap (λ x. closing false x c.effects) (sym f);
    kept = k;
  },
  refl,
)
dropped-Cleared (some fd) c m f g s u e k = rw g (
  record {
    state_closed = s;
    not_watched = u;
    no_file = (refl, refl);
    seen = ap (λ es. closed_fd fd ∷ es) e ∙ ap (λ x. closing false x c.effects) (sym f);
    kept = k;
  },
  refl,
)

open_is_alive : (s : StateE) → is_open s ≡ true → is_disconnected s ≡ false
open_is_alive connecting o = cc
open_is_alive connected o = refl
open_is_alive disconnecting o = refl
open_is_alive disconnected o = cc

-- `handleClose` of an open connection whose channel is registered leaves it closed: it is disconnected,
-- neither the map of the poller nor the interest list of the kernel has its descriptor any more, the file
-- that it was sending is closed, and the callback, where it is set, is called behind that; it has no file
-- and no timers, and the timers of the loop are none of those that it had, and no new ones.
pub handle_close-Closed :
    (c : Connection)
    → is_open c.state ≡ true
    → Registered c.channel c.poller
    → (c' : Connection) × (handle_close c ≡ some c') × Closed c c'
unfolding handle_close
handle_close-Closed c o r =
    let (ch, p, e, u) = remove-Unwatched c.channel c.poller r in
    let m : Connection = with_channel (ch, p) (record c { state = disconnected }) in
    let (k, b) = dropped-Cleared c.file_fd c m refl refl refl u refl (refl, refl, refl) in
    let left : Connection = cancel_retransmits (cancel_idle_timer (drop_file m)) in
    (
      log_if left.callbacks.on_close close_callback left,
      rw (open_is_alive c.state o, o, e) refl,
      Cleared-Closed left.callbacks.on_close c (drop_file m) (ap (λ x. x.on_close) (sym b)) k,
    )
