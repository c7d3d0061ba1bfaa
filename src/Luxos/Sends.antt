-- ===== src/Luxos/Sends.antt =====
-- pocisys-hash-monitor/services/luxos_control.py: which commands the methods send to a miner.
use gauge_umbrel_community.Prelude.{
  ℕ, zero, suc, ◌+◌, ◌≤◌, ◌<◌, ◌≡◌, inl, inr, refl, List, [], ◌∷◌, ◌++◌, map, arith, Bool-cases,
  sym, ap, ◌∙◌, All, All-append,
}
use mathlib.Core.List.{append_assoc}
use gauge_umbrel_community.Luxos.State.{Command, reboot, Service}
use gauge_umbrel_community.Luxos.Monad.{Result, ok, err, Method, ◌>>=◌, continue}
use gauge_umbrel_community.Luxos.Client.{Client, send_all, session_batch, set_boards, range_from}

abbrev pub Log : Type 0
Log = List (ℕ × Command)

-- The log has grown by commands of which `P` holds.
pub record Extends (P : ℕ × Command → Type 0) (before after : Log) : Type 0 where
  pub new : Log
  pub extends : after ≡ new ++ before
  pub holds : All P new

module _ (P : ℕ × Command → Type 0) where
  pub Extends-refl : (l : Log) → Extends P l l
  Extends-refl l = record { new = []; extends = refl; holds = tt }

  pub Extends-trans : (a b c : Log) → Extends P a b → Extends P b c → Extends P a c
  Extends-trans a b c x y = record {
    new = y.new ++ x.new;
    extends = y.extends ∙ ap (λ l. y.new ++ l) x.extends ∙ sym (append_assoc y.new x.new a);
    holds = All-append P y.new x.new y.holds x.holds;
  }

  -- A call of the method at `s` sends only commands of which `P` holds.
  abbrev pub Sends : {A : Type 0} → Method A → Service → Type 0
  Sends m s = Extends P s.sent (m s).1.sent

  pub Sends-bind :
      {A B : Type 0} (m : Method A) (f : A → Method B) (s : Service)
      → Sends m s
      → ((a : A) → (m s).0 ≡ ok a → Sends (f a) (m s).1)
      → Sends (m >>= f) s
  Sends-bind {A} {B} m f s x y = go (m s) refl x y
    where
      go :
          (r : Result A × Service)
          → m s ≡ r
          → Extends P s.sent r.1.sent
          → ((a : A) → r.0 ≡ ok a → Sends (f a) r.1)
          → Extends P s.sent (continue f r).1.sent
      go (ok a, t) e x' y' = Extends-trans s.sent t.sent (f a t).1.sent x' (y' a refl)
      go (err e, t) _ x' y' = x'

  pub Sends-send_all :
      (c : Client) (id : ℕ) (xs : List Command) (s : Service)
      → All (λ x. P (id, x)) xs
      → Sends (send_all c id xs) s
  unfolding send_all
  Sends-send_all c id [] s h = Extends-refl s.sent
  Sends-send_all c id (x ∷ xs) s h =
      let s' = record s { sent = (id, x) ∷ s.sent } in
      let first : Extends P s.sent s'.sent = record {
        new = (id, x) ∷ [];
        extends = refl;
        holds = (h.0, tt);
      } in
      elim (Bool-cases (c.accepts x)) [
        | inl yes' ↦ rw yes' (
            Extends-trans s.sent s'.sent (send_all c id xs s').1.sent first
              (Sends-send_all c id xs s' h.1))
        | inr no' ↦ rw no' first
      ]

  pub Sends-session_batch :
      (c : Client) (id : ℕ) (xs : List Command) (s : Service)
      → All (λ x. P (id, x)) xs
      → Sends (session_batch c id xs) s
  unfolding session_batch
  Sends-session_batch c id xs s h = elim (Bool-cases c.logon) [
    | inl free ↦ rw free (Sends-send_all c id xs s h)
    | inr taken ↦ rw taken (Extends-refl s.sent)
  ]

  All-range :
      (id d k n : ℕ)
      → ((b : ℕ) → k ≤ b → b < k + n → P (id, reboot b d))
      → All (λ x. P (id, x)) (map (λ b. reboot b d) (range_from k n))
  All-range id d k zero h = tt
  All-range id d k (suc n) h = (
    h k (omega arith) (omega arith),
    All-range id d (suc k) n (λ b lo hi. h b (omega arith) (omega arith)),
  )

  pub Sends-set_boards :
      (c : Client) (id n d : ℕ) (s : Service)
      → ((b : ℕ) → b < n → P (id, reboot b d))
      → Sends (set_boards c id (range_from 0 n) d) s
  unfolding set_boards
  Sends-set_boards c id zero d s h = Extends-refl s.sent
  Sends-set_boards c id (suc n) d s h =
      Sends-session_batch c id (map (λ b. reboot b d) (range_from 0 (suc n))) s
        (All-range id d 0 (suc n) (λ b lo hi. h b (omega arith)))
