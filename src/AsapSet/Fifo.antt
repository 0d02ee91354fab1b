-- ===== src/AsapSet/Fifo.antt =====
-- `driver_asapset` is a first-in first-out queue: the counters may wrap, and `expand` moves the slots.
use native.Mathlib.Nat.{mod-eq_of_lt, pow-le-pow_right, pow-suc}
use native.Mathlib.Decide.{dec_lt, ℕ_discrete}
use tamer.Prelude.{
  ℕ, zero, suc, ◌+◌, ◌-◌, ◌*◌, ◌%◌, ◌^◌, ◌≤◌, ◌<◌, ◌≡◌, refl, ap, ap₂, sym, ◌∙◌, ◌⊎◌, ◌≢◌, inl, inr,
  List, [], ◌∷◌, ◌++◌, none, some, arith, ◌==◌, bit_and, add32, sub32, store, Bool-cases,
}
use tamer.Prelude.Bits.{bit_and-mask, pow-pos}
use tamer.AsapSet.{
  AsapSet, initial, copy, expand, append, push, pop_trigger, clear_loop, clear, empty,
}
use tamer.AsapSet.Window.{window, slots, slots-window, window-snoc, window-store, wrap-mod}

-- how many events wait
abbrev pub count : AsapSet → ℕ
count a = sub32 a.tail a.head

-- the waiting events, in the order in which they will be triggered
abbrev pub contents : AsapSet → List ℕ
contents a = slots a.ses a.capmask a.head (count a)

-- The mask is all ones before the first `expand`, and then `2 ^ k - 1` for the `2 ^ k` slots.
pub record IsValid (a : AsapSet) : Type 0 where
  pub capacity : (a.capmask ≡ 2 ^ 32 - 1) ⊎ ((k : ℕ) × (k < 32) × (a.capmask ≡ 2 ^ k - 1))
  pub head_small : a.head < 2 ^ 32
  pub tail_small : a.tail < 2 ^ 32
  pub fits : count a ≤ add32 a.capmask 1

pub initial-IsValid : IsValid initial × (contents initial ≡ [])
initial-IsValid = (
  record {
    capacity = inl refl;
    head_small = omega arith;
    tail_small = omega arith;
    fits = omega arith;
  },
  refl,
)

tail-counter :
    (head tail : ℕ) → head < 2 ^ 32 → tail < 2 ^ 32 → (head + sub32 tail head) % 2 ^ 32 ≡ tail
tail-counter head tail h t = omega arith

tail_slot :
    (head tail k : ℕ)
    → head < 2 ^ 32
    → tail < 2 ^ 32
    → k < 32
    → bit_and tail (2 ^ k - 1) ≡ (head + sub32 tail head) % 2 ^ k
tail_slot head tail k h t b =
    bit_and-mask k tail
    ∙ ap (λ n. n % 2 ^ k) (sym (tail-counter head tail h t))
    ∙ wrap-mod k (head + sub32 tail head) b

store_self : (f : ℕ → ℕ) (i v : ℕ) → store f i v i ≡ v
store_self f i v = ground arith

slots-append :
    (ses : ℕ → ℕ) (k head tail n se : ℕ)
    → head < 2 ^ 32
    → tail < 2 ^ 32
    → k < 32
    → sub32 tail head ≡ n
    → n < 2 ^ k
    → slots (store ses (bit_and tail (2 ^ k - 1)) se) (2 ^ k - 1) head (suc n)
      ≡ slots ses (2 ^ k - 1) head n ++ (se ∷ [])
slots-append ses k head tail n se h t b e lt =
    let slot : bit_and tail (2 ^ k - 1) ≡ (head + n) % 2 ^ k =
      rw e at (tail_slot head tail k h t b) in
    let stored = store ses ((head + n) % 2 ^ k) se in
    ap (λ t. slots (store ses t se) (2 ^ k - 1) head (suc n)) slot
    ∙ slots-window stored k (suc n) head b
    ∙ window-snoc stored (2 ^ k) head n
    ∙ ap₂ (λ xs y. xs ++ (y ∷ []))
        (window-store ses (2 ^ k) head n n se (omega arith) lt ∙ sym (slots-window ses k n head b))
        (store_self ses ((head + n) % 2 ^ k) se)

-- `copy` lays `n` slots down from index `i` on, and leaves what stands before.
abbrev cells : (ℕ → ℕ) → ℕ → ℕ → List ℕ
cells f i zero = []
cells f i (suc n) = f i ∷ cells f (i + 1) n

copy_round :
    (n : ℕ) (ses : ℕ → ℕ) (mask x i : ℕ) (na : ℕ → ℕ)
    → i + 1 < 2 ^ 32
    → copy (suc n) ses mask x i na
      ≡ copy n ses mask (add32 x 1) (i + 1) (store na i (ses (bit_and x mask)))
unfolding copy
copy_round n ses mask x i na b =
    ap (λ t. copy n ses mask (add32 x 1) t (store na i (ses (bit_and x mask)))) (mod-eq_of_lt b)

copy_before :
    (n : ℕ) (ses : ℕ → ℕ) (mask x i : ℕ) (na : ℕ → ℕ) (j : ℕ)
    → i + n < 2 ^ 32
    → j < i
    → copy n ses mask x i na j ≡ na j
copy_before zero ses mask x i na j b lt = unfold copy in refl
copy_before (suc n) ses mask x i na j b lt =
    rw (copy_round n ses mask x i na (omega arith))
      (copy_before n ses mask (add32 x 1) (i + 1) _ j (omega arith) (omega arith) ∙ ground arith)

cells-copy :
    (n : ℕ) (ses : ℕ → ℕ) (mask x i : ℕ) (na : ℕ → ℕ)
    → i + n < 2 ^ 32
    → cells (copy n ses mask x i na) i n ≡ slots ses mask x n
cells-copy zero ses mask x i na b = refl
cells-copy (suc n) ses mask x i na b =
    let laid = store na i (ses (bit_and x mask)) in
    ap (λ f. cells f i (suc n)) (copy_round n ses mask x i na (omega arith))
    ∙ ap₂ ◌∷◌
        (copy_before n ses mask (add32 x 1) (i + 1) laid i (omega arith) (omega arith)
          ∙ store_self na i (ses (bit_and x mask)))
        (cells-copy n ses mask (add32 x 1) (i + 1) laid (omega arith))

window-cells : (f : ℕ → ℕ) (c i n : ℕ) → i + n ≤ c → window f c i n ≡ cells f i n
window-cells f c i zero b = refl
window-cells f c i (suc n) b =
    ap₂ ◌∷◌ (ap f (mod-eq_of_lt (omega arith))) (window-cells f c (i + 1) n (omega arith))

pow-le : (k : ℕ) → k < 32 → 2 ^ k ≤ 2 ^ 31
pow-le k b = pow-le-pow_right {n = 2} (omega arith) {i = k} {j = 31} (omega arith)

-- Where the ring is not full and has its slots, `append` adds the event at the end.
append_lem :
    (a : AsapSet) (se k : ℕ)
    → IsValid a
    → k < 32
    → a.capmask ≡ 2 ^ k - 1
    → count a < 2 ^ k
    → IsValid (append a se) × (contents (append a se) ≡ contents a ++ (se ∷ []))
unfolding append
append_lem a se k v b e lt =
    let bound = pow-le k b in
    let grown : sub32 (add32 a.tail 1) a.head ≡ suc (count a) = omega arith in
    (
      record {
        capacity = inr (k, b, e);
        head_small = v.head_small;
        tail_small = omega arith;
        fits = omega arith;
      },
      ap₂ (λ m n. slots (store a.ses (bit_and a.tail m) se) m a.head n) e grown
          ∙ slots-append a.ses k a.head a.tail (count a) se v.head_small v.tail_small b refl lt
          ∙ sym (ap (λ m. slots a.ses m a.head (count a) ++ (se ∷ [])) e),
    )

-- What `expand` gives back: slots for one more event at least, and the same events.
record Expanded (a b : AsapSet) : Type 0 where
  log : ℕ
  log_small : log < 32
  mask : b.capmask ≡ 2 ^ log - 1
  room : count b < 2 ^ log
  valid : IsValid b
  same : contents b ≡ contents a

expand_to :
    (a : AsapSet) (k : ℕ)
    → k < 32
    → (expand a).capmask ≡ 2 ^ k - 1
    → count a < 2 ^ k
    → Expanded a (expand a)
unfolding expand
expand_to a k b e lt =
    let bound = pow-le k b in
    let counted : count (expand a) ≡ count a = omega arith in
    record {
      log = k;
      log_small = b;
      mask = e;
      room = omega arith;
      valid = record {
        capacity = inr (k, b, e);
        head_small = omega arith;
        tail_small = omega arith;
        fits = omega arith;
      };
      same =
          ap₂ (λ m n. slots (expand a).ses m 0 n) e counted
          ∙ slots-window (expand a).ses k (count a) 0 b
          ∙ window-cells (expand a).ses (2 ^ k) 0 (count a) (omega arith)
          ∙ cells-copy (count a) a.ses a.capmask a.head 0 (λ _. 0) (omega arith);
    }

log_lt : (k : ℕ) → 2 ^ k < 2 ^ 30 → suc (suc k) < 32
log_lt k h = elim (dec_lt k 30) [
  | yes lt ↦ omega arith
  | no ge ↦
      absurd (omega (arith, pow-le-pow_right {n = 2} (omega arith) {i = 30} {j = k} (omega arith)))
]

expand_lem :
    (a : AsapSet)
    → IsValid a
    → count a < 2 ^ 30
    → count a ≡ add32 a.capmask 1
    → Expanded a (expand a)
unfolding expand
expand_lem a v few full = elim v.capacity [
  | inl e ↦ expand_to a 5 (omega arith) (ground arith) (omega arith)
  | inr (k, b, e) ↦
      let bound = pow-le k b in
      let pos = pow-pos k in
      let four : 2 ^ suc (suc k) ≡ 2 ^ k * 2 * 2 = rw (pow-suc 2 (suc k), pow-suc 2 k) in
      expand_to a (suc (suc k)) (log_lt k (omega arith))
        (unfold expand in ground (arith, four, pos)) (omega arith)
]

-- `push` puts an event behind all others, whether the ring has room or has to grow.
pub push_fifo :
    (a : AsapSet) (se : ℕ)
    → IsValid a
    → count a < 2 ^ 30
    → IsValid (push a se) × (contents (push a se) ≡ contents a ++ (se ∷ []))
unfolding push
push_fifo a se v few = elim (Bool-cases (count a == add32 a.capmask 1)) [
  | inl full ↦
      let x = expand_lem a v few (ground arith) in
      let (w, c) = append_lem (expand a) se x.log x.valid x.log_small x.mask x.room in
      rw full (w, c ∙ ap (λ t. t ++ (se ∷ [])) x.same)
  | inr room ↦ rw room (elim v.capacity [
    | inl e ↦ absurd (ground arith)
    | inr (k, b, e) ↦
        append_lem a se k v b e
          (let bound = pow-le k b in let pos = pow-pos k in ground (arith, pos, bound, v.fits))
  ])
]

-- the ring without its oldest event
abbrev advance : AsapSet → AsapSet
advance a = record a { head = add32 a.head 1 }

count-advance : (a : AsapSet) → IsValid a → a.head ≢ a.tail → count a ≡ suc (count (advance a))
count-advance a v ne = omega arith

advance-IsValid : (a : AsapSet) → IsValid a → a.head ≢ a.tail → IsValid (advance a)
advance-IsValid a v ne = record {
  capacity = v.capacity;
  head_small = omega arith;
  tail_small = v.tail_small;
  fits = omega arith;
}

contents-advance :
    (a : AsapSet)
    → IsValid a
    → a.head ≢ a.tail
    → contents a ≡ a.ses (bit_and a.head a.capmask) ∷ contents (advance a)
contents-advance a v ne = ap (slots a.ses a.capmask a.head) (count-advance a v ne)

contents_none : (a : AsapSet) → IsValid a → a.head ≡ a.tail → contents a ≡ []
contents_none a v e = let gone : count a ≡ 0 = omega arith in ap (slots a.ses a.capmask a.head) gone

-- `pop_trigger` takes the oldest event; it fails its assertion exactly on the empty ring.
pub pop_fifo :
    (a : AsapSet)
    → IsValid a
    → ((pop_trigger a ≡ none) × (contents a ≡ []))
      ⊎ ((se : ℕ) × (b : AsapSet) × (pop_trigger a ≡ some (se, b))
          × (contents a ≡ se ∷ contents b)
          × IsValid b)
unfolding pop_trigger
pop_fifo a v = elim (ℕ_discrete a.head a.tail) [
  | yes e ↦ inl (ground arith, contents_none a v e)
  | no ne ↦ inr (
    a.ses (bit_and a.head a.capmask),
    advance a,
    ground arith,
    contents-advance a v ne,
    advance-IsValid a v ne,
  )
]

clear_loop_lem :
    (fuel : ℕ) (a : AsapSet)
    → IsValid a
    → count a < fuel
    → (b : AsapSet) × (clear_loop fuel a ≡ some (contents a, b)) × (contents b ≡ []) × IsValid b
unfolding clear_loop empty
clear_loop_lem zero a v h = elim h [ ]
clear_loop_lem (suc fuel) a v h = elim (ℕ_discrete a.head a.tail) [
  | yes e ↦ (a, ground (arith, contents_none a v e), contents_none a v e, v)
  | no ne ↦
      let counted = count-advance a v ne in
      let (b, run, gone, w) =
        clear_loop_lem fuel (advance a) (advance-IsValid a v ne) (omega arith) in
      (b, ground (arith, contents-advance a v ne), gone, w)
]

-- `clear` ends, with every waiting event dropped once, in order, and the ring empty.
pub clear_fifo :
    (a : AsapSet)
    → IsValid a
    → (b : AsapSet) × (clear a ≡ some (contents a, b)) × (contents b ≡ []) × IsValid b
unfolding clear
clear_fifo a v = clear_loop_lem (suc (count a)) a v (omega arith)
