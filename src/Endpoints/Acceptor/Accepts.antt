-- ===== src/Endpoints/Acceptor/Accepts.antt =====
-- Which connections are accepted.
use clear_moon.Prelude.{
  ℕ, ◌≡◌, refl, Bool, true, false, List, [], ◌∷◌, ◌++◌, Option, none, some, ◌>>=◌,
}
use clear_moon.Endpoints.Acceptor.{Accepted, got, would_block, failed, handle_read}

abbrev pub blocks : {A : Type 0} → List (Accepted A) → Bool
blocks [] = false
blocks (would_block ∷ rs) = true
blocks (r ∷ rs) = blocks rs

abbrev pub accepted : {A : Type 0} → List (Accepted A) → List (ℕ × A)
accepted [] = []
accepted (got fd peer ∷ rs) = (fd, peer) ∷ accepted rs
accepted (r ∷ rs) = accepted rs

module _ {A S : Type 0} (on_connection : ℕ → A → S → Option S) where
  abbrev pub each : List (ℕ × A) → S → Option S
  each [] s = some s
  each ((fd, peer) ∷ l) s = on_connection fd peer s >>= each l

  -- Until the first EAGAIN, `handleRead` hands over each connection, in order, passes over errors, and
  -- asks no further; where `accept` never says EAGAIN, as where it goes on to fail, it does not return.
  pub handle_read-accepts :
      (front rest : List (Accepted A)) (s : S)
      → blocks front ≡ false
      → (handle_read on_connection (front ++ (would_block ∷ rest)) s
          ≡ (each (accepted front) s >>= λ s. some (s, rest)))
        × (handle_read on_connection front s ≡ none)
  unfolding handle_read
  handle_read-accepts [] rest s e = (refl, refl)
  handle_read-accepts (would_block ∷ rs) rest s e = absurd cc
  handle_read-accepts (failed ∷ rs) rest s e = handle_read-accepts rs rest s e
  handle_read-accepts (got fd peer ∷ rs) rest s e =
      goes (on_connection fd peer s) (λ u. handle_read-accepts rs rest u e)
    where
      goes :
          (o : Option S)
          → ((u : S)
              → (handle_read on_connection (rs ++ (would_block ∷ rest)) u
                  ≡ (each (accepted rs) u >>= λ s. some (s, rest)))
                × (handle_read on_connection rs u ≡ none))
          → ((o >>= handle_read on_connection (rs ++ (would_block ∷ rest)))
              ≡ ((o >>= each (accepted rs)) >>= λ s. some (s, rest)))
            × ((o >>= handle_read on_connection rs) ≡ none)
      goes none h = (refl, refl)
      goes (some u) h = h u
