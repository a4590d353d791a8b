-- ===== src/Procurement/Rows.antt =====
-- The table of the requests, and what writing a row back does to it.
use mathlib.Core.Path.{subst}
use dc_inventory.Prelude.{ℕ, ◌≡◌, refl, inl, inr, false, some, List, [], ◌∷◌, arith}
use dc_inventory.Prelude.Tests.{◌==◌, Bool-cases}
use dc_inventory.Prelude.Lists.{All}
use dc_inventory.Procurement.Tables.{ProcurementRequest, find_request}
use dc_inventory.Procurement.Guards.{put_request}

pub find_request_id :
    (k : ℕ) (rs : List ProcurementRequest) (r : ProcurementRequest)
    → find_request k rs ≡ some r
    → r.id ≡ k
find_request_id k [] r h = cc
find_request_id k (q ∷ qs) r h = ground (arith, find_request_id k qs r)

pub find_request-put_request :
    (k : ℕ) (rs : List ProcurementRequest) (r r' : ProcurementRequest)
    → find_request k rs ≡ some r
    → r'.id ≡ r.id
    → find_request k (put_request r' rs) ≡ some r'
unfolding put_request
find_request-put_request k [] r r' h e = cc
find_request-put_request k (q ∷ qs) r r' h e =
    ground (arith, find_request-put_request k qs r r', find_request_id k (q ∷ qs) r h)

-- The rows of the other requests stay.
pub find_request-other :
    (k : ℕ) (rs : List ProcurementRequest) (r' : ProcurementRequest)
    → (r'.id == k) ≡ false
    → find_request k (put_request r' rs) ≡ find_request k rs
unfolding put_request
find_request-other k [] r' h = refl
find_request-other k (q ∷ qs) r' h = ground (arith, find_request-other k qs r' h)

some_same : {q r : ProcurementRequest} → some q ≡ some r → q ≡ r
some_same h = cc

module _ (P : ProcurementRequest → Type 0) where
  pub All-find_request :
      (k : ℕ) (rs : List ProcurementRequest) (r : ProcurementRequest)
      → All P rs
      → find_request k rs ≡ some r
      → P r
  All-find_request k [] r a h = cc
  All-find_request k (q ∷ qs) r a h = elim (Bool-cases (q.id == k)) [
    | inl e ↦ subst P (some_same (rw e at h)) a.0
    | inr e ↦ All-find_request k qs r a.1 (rw e at h)
  ]

  pub All-put_request :
      (r' : ProcurementRequest) (rs : List ProcurementRequest)
      → P r'
      → All P rs
      → All P (put_request r' rs)
  unfolding put_request
  All-put_request r' [] p a = tt
  All-put_request r' (q ∷ qs) p a = elim (Bool-cases (q.id == r'.id)) [
    | inl e ↦ rw e (p, a.1)
    | inr e ↦ rw e (a.0, All-put_request r' qs p a.1)
  ]
