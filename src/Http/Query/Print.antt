-- ===== src/Http/Query/Print.antt =====
-- Queries of plain text: what `make_info` reads from them.
use tamer.Prelude.{
  ℕ, suc, ◌≡◌, ◌≢◌, refl, sym, ap, ◌∙◌, true, false, ◌&&◌, List, [], ◌∷◌, ◌++◌, arith, ◌==◌,
  if◌then◌else◌,
}
use mathlib.Core.List.{append_assoc, append-nil}
use tamer.Http.{Header, is_nil}
use tamer.Http.Query.{Query, isxdigit, add_last, round, escape, run, split_query}

-- none of `&`, `;`, `=`, `%` and `+`
abbrev pub Plain : List ℕ → Type 0
Plain [] = Unit
Plain (c ∷ s) = ((c ≢ 38) × (c ≢ 59) × (c ≢ 61) × (c ≢ 37) × (c ≢ 43)) × Plain s

run-cons : (q : Query) (c : ℕ) (s : List ℕ) → c ≢ 37 → run q (c ∷ s) ≡ run (round q c) s
unfolding run
run-cons q c [] h = refl
run-cons q c (a ∷ []) h = refl
run-cons q c (a ∷ b ∷ s) h = ground arith

abbrev at : ℕ → List ℕ → List ℕ → List ℕ → List Header → Query
at state pending name buf out = record {
  state = state;
  pending = pending;
  name = name;
  buf = buf;
  raw_query = out;
}

abbrev PlainByte : ℕ → Type 0
PlainByte c = (c ≢ 38) × (c ≢ 59) × (c ≢ 61) × (c ≢ 37) × (c ≢ 43)

round-Plain :
    (state : ℕ) (pending name buf : List ℕ) (out : List Header) (c : ℕ)
    → PlainByte c
    → round (at (suc state) pending name buf out) c
      ≡ at (suc state) (pending ++ (c ∷ [])) name buf out
unfolding round
round-Plain state pending name buf out c v = ground arith

round-first :
    (out : List Header) (c : ℕ)
    → PlainByte c
    → round (at 0 [] [] [] out) c ≡ at 1 (c ∷ []) [] [] out
unfolding round
round-first out c v = ground arith

round-equals :
    (c : ℕ) (name : List ℕ) (out : List Header)
    → round (at 1 (c ∷ name) [] [] out) 61 ≡ at 2 [] (c ∷ name) [] out
unfolding round
round-equals c name out = refl

round-ends :
    (value name : List ℕ) (out : List Header)
    → is_nil name ≡ false
    → round (at 2 value name [] out) 38
      ≡ at 0 [] [] [] (out ++ (record { name = name; value = value } ∷ []))
unfolding round add_last
round-ends value [] out e = absurd (ground arith)
round-ends value (c ∷ name) out e = refl

-- Plain text waits between `last` and `s`.
run-Plain :
    (state : ℕ) (pending name buf : List ℕ) (out : List Header) (s rest : List ℕ)
    → Plain s
    → run (at (suc state) pending name buf out) (s ++ rest)
      ≡ run (at (suc state) (pending ++ s) name buf out) rest
run-Plain state pending name buf out [] rest v =
    ap (λ t. run (at (suc state) t name buf out) rest) (sym (append-nil pending))
run-Plain state pending name buf out (c ∷ s) rest (b, v) =
    run-cons (at (suc state) pending name buf out) c (s ++ rest) (ground arith)
    ∙ ap (λ q. run q (s ++ rest)) (round-Plain state pending name buf out c b)
    ∙ run-Plain state (pending ++ (c ∷ [])) name buf out s rest v
    ∙ ap (λ t. run (at (suc state) t name buf out) rest) (append_assoc pending (c ∷ []) s)

-- `name=value` in front of more text
abbrev pub text : Header → List ℕ → List ℕ
text p rest = p.name ++ (61 ∷ p.value ++ rest)

abbrev pub IsPair : Header → Type 0
IsPair p = (is_nil p.name ≡ false) × Plain p.name × Plain p.value

run-text-at :
    (out : List Header) (name value rest : List ℕ)
    → IsPair (record { name = name; value = value })
    → run (at 0 [] [] [] out) (text (record { name = name; value = value }) rest)
      ≡ run (at 2 value name [] out) rest
run-text-at out [] value rest v = absurd (ground arith)
run-text-at out (c ∷ name) value rest (ne, (b, vn), vv) =
    run-cons (at 0 [] [] [] out) c (name ++ (61 ∷ value ++ rest)) (ground arith)
    ∙ ap (λ q. run q (name ++ (61 ∷ value ++ rest))) (round-first out c b)
    ∙ run-Plain 0 (c ∷ []) [] [] out name (61 ∷ value ++ rest) vn
    ∙ run-cons (at 1 (c ∷ name) [] [] out) 61 (value ++ rest) (omega arith)
    ∙ ap (λ q. run q (value ++ rest)) (round-equals c name out)
    ∙ run-Plain 1 [] (c ∷ name) [] out value rest vv

-- A query of such pairs, with `&` between them.
abbrev pub print : List Header → List ℕ
print [] = []
print (p ∷ []) = text p []
print (p ∷ q ∷ ps) = text p (38 ∷ print (q ∷ ps))

-- The last pair has a value.
abbrev pub AllPairs : List Header → Type 0
AllPairs [] = Unit
AllPairs (p ∷ []) = IsPair p × (is_nil p.value ≡ false)
AllPairs (p ∷ q ∷ ps) = IsPair p × AllPairs (q ∷ ps)

finish : Query → List Header
finish q = if is_nil q.pending then q.raw_query else (add_last q).raw_query

finish-value :
    (name value : List ℕ) (out : List Header)
    → is_nil name ≡ false
    → is_nil value ≡ false
    → finish (at 2 value name [] out) ≡ out ++ (record { name = name; value = value } ∷ [])
unfolding finish add_last
finish-value [] value out e f = absurd (ground arith)
finish-value (c ∷ name) [] out e f = absurd (ground arith)
finish-value (c ∷ name) (x ∷ value) out e f = refl

finish-print :
    (out : List Header) (ps : List Header)
    → AllPairs ps
    → finish (run (at 0 [] [] [] out) (print ps)) ≡ out ++ ps
unfolding run finish
finish-print out [] v = sym (append-nil out)
finish-print out (p ∷ []) (w, filled) =
    ap finish (run-text-at out p.name p.value [] w) ∙ finish-value p.name p.value out w.0 filled
finish-print out (p ∷ q ∷ ps) (w, v) =
    ap finish (
      run-text-at out p.name p.value (38 ∷ print (q ∷ ps)) w
      ∙ run-cons (at 2 p.value p.name [] out) 38 (print (q ∷ ps)) (omega arith)
      ∙ ap (λ t. run t (print (q ∷ ps))) (round-ends p.value p.name out w.0))
    ∙ finish-print (out ++ (p ∷ [])) (q ∷ ps) v
    ∙ append_assoc out (p ∷ []) (q ∷ ps)

-- A query of pairs `name=value` with `&` between them gives these pairs back, in order: names are not
-- empty, neither is the value of the last pair, and no name or value has one of `&`, `;`, `=`, `%`, `+`.
pub split_query-print : (ps : List Header) → AllPairs ps → split_query (print ps) ≡ ps
unfolding split_query finish
split_query-print ps v = finish-print [] ps v

hex_pair :
    (a b : ℕ)
    → isxdigit a ≡ true
    → isxdigit b ≡ true
    → (37 == 37 && isxdigit a && isxdigit b) ≡ true
hex_pair a b ha hb = ground arith

run-escape :
    (q : Query) (a b : ℕ)
    → isxdigit a ≡ true
    → isxdigit b ≡ true
    → run q (37 ∷ a ∷ b ∷ []) ≡ escape q a b
unfolding run
run-escape q a b ha hb =
    ap
      (λ t. elim t as (λ _. Query) [
        | true ↦ run (escape q a b) []
        | false ↦ run (round q 37) (a ∷ b ∷ [])
      ])
      (hex_pair a b ha hb)

finish-escape :
    (value name : List ℕ) (out : List Header) (a b : ℕ)
    → finish (escape (at 2 value name [] out) a b) ≡ out
unfolding finish escape
finish-escape value name out a b = refl

-- A query of one pair whose value ends in an escape gives no pair: the code behind the loop looks at the
-- text since the last escape only.
pub split_query-escape :
    (name value : List ℕ) (a b : ℕ)
    → IsPair (record { name = name; value = value })
    → isxdigit a ≡ true
    → isxdigit b ≡ true
    → split_query (text (record { name = name; value = value }) (37 ∷ a ∷ b ∷ [])) ≡ []
unfolding split_query finish
split_query-escape name value a b v ha hb =
    ap finish (run-text-at [] name value (37 ∷ a ∷ b ∷ []) v)
    ∙ ap finish (run-escape (at 2 value name [] []) a b ha hb)
    ∙ finish-escape value name [] a b
