-- ===== src/Timers/Order.antt =====
-- Heap order on the ranks of the slots, and how one exchange of the sift loops keeps it.
use tamer.Prelude.{ℕ, zero, suc, ◌/◌, ◌≤◌, ◌<◌, ◌≡◌, ◌≢◌, arith}
use tamer.Timers.{swap}

-- No slot comes before its parent.
abbrev pub IsHeap : (ℕ → ℕ) → ℕ → Type 0
IsHeap r n = (i : ℕ) → 0 < i → i < n → r (i / 4) ≤ r i

-- A heap but for the edge from `pos` to its parent; the edges round `pos` are closed up.
pub record Rising (r : ℕ → ℕ) (n pos : ℕ) : Type 0 where
  pub others : (i : ℕ) → 0 < i → i < n → i ≢ pos → r (i / 4) ≤ r i
  pub below : (i : ℕ) → 0 < i → i < n → i / 4 ≡ pos → 0 < pos → r (pos / 4) ≤ r i

-- A heap but for the edges from `pos` to its children.
pub record Sinking (r : ℕ → ℕ) (n pos : ℕ) : Type 0 where
  pub others : (i : ℕ) → 0 < i → i < n → i / 4 ≢ pos → r (i / 4) ≤ r i
  pub below : (i : ℕ) → 0 < i → i < n → i / 4 ≡ pos → 0 < pos → r (pos / 4) ≤ r i

module _ (r : ℕ → ℕ) (n pos : ℕ) where
  pub Rising-IsHeap : Rising r n pos → (0 < pos → r (pos / 4) ≤ r pos) → IsHeap r n
  Rising-IsHeap u h i lo hi = ground (arith, u.others i lo hi, h)

  pub Rising-swap :
      Rising r n pos
      → 0 < pos
      → pos < n
      → r pos < r (pos / 4)
      → Rising (swap r pos (pos / 4)) n (pos / 4)
  Rising-swap u lo hi lt = record {
    others = λ i a b c. ground (arith, u.others i a b, u.others (i / 4), u.below i a b);
    below = λ i a b c d. ground (arith, u.others i a b, u.others (pos / 4));
  }

  pub Sinking-IsHeap :
      Sinking r n pos → ((i : ℕ) → 0 < i → i < n → i / 4 ≡ pos → r pos ≤ r i) → IsHeap r n
  Sinking-IsHeap d h i lo hi = ground (arith, d.others i lo hi, h i lo hi)

  pub Sinking-swap :
      (s : ℕ)
      → Sinking r n pos
      → 0 < s
      → s < n
      → s / 4 ≡ pos
      → r s < r pos
      → ((i : ℕ) → 0 < i → i < n → i / 4 ≡ pos → r s ≤ r i)
      → Sinking (swap r pos s) n s
  Sinking-swap s d lo hi child lt least = record {
    others = λ i a b c. ground (arith, d.others i a b, d.below s lo hi child, least i a b);
    below = λ i a b c e. ground (arith, d.others i a b);
  }

module _ (r : ℕ → ℕ) (n pos : ℕ) (heap : IsHeap r (suc n)) (in_use : pos < n) where
  -- The last record in place of slot `pos`, where it does not come before the parent.
  pub swap_last-Sinking :
      (0 < pos → swap r n pos (pos / 4) ≤ swap r n pos pos) → Sinking (swap r n pos) n pos
  swap_last-Sinking up = record {
    others = λ i a b c. ground (arith, heap i, up);
    below = λ i a b c e. ground (arith, heap i, heap pos);
  }

  -- And where it does.
  pub swap_last-Rising :
      0 < pos → swap r n pos pos < swap r n pos (pos / 4) → Rising (swap r n pos) n pos
  swap_last-Rising lo lt = record {
    others = λ i a b c. ground (arith, heap i, heap pos);
    below = λ i a b c e. ground (arith, heap i, heap pos);
  }

-- The root comes first.
pub root-le : (r : ℕ → ℕ) (n fuel i : ℕ) → IsHeap r n → i < n → i ≤ fuel → r 0 ≤ r i
root-le r n zero i h lt b = ground arith
root-le r n (suc fuel) i h lt b = ground (arith, h i, root-le r n fuel (i / 4) h)
