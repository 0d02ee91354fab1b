-- ===== src/Http/Callbacks.antt =====
-- A message arrives in pieces, at whatever bytes the reads end.
use tamer.Prelude.{
  ℕ, ◌≡◌, refl, sym, ap, subst, ◌∙◌, Bool, true, false, List, [], ◌∷◌, ◌++◌, map, arith,
}
use mathlib.Core.List.{append_assoc, append-nil}
use tamer.Http.{
  Header, Message, MessageData, Codes, Status, is_nil, do_clear, add_header, on_message_begin,
  on_url, on_header_field, on_header_value, on_headers_complete, on_body, on_message_complete,
}

abbrev pub flat : List (List ℕ) → List ℕ
flat [] = []
flat (s ∷ ss) = s ++ flat ss

-- A callback for each piece.
abbrev pub each : (MessageData → List ℕ → MessageData) → MessageData → List (List ℕ) → MessageData
each f md [] = md
each f md (s ∷ ss) = each f (f md s) ss

-- A header line: the pieces of its name and those of its value, one of each at least.
pub record Pieces : Type 0 where
  pub name : List ℕ
  pub more_name : List (List ℕ)
  pub value : List ℕ
  pub more_value : List (List ℕ)

abbrev pub header_of : Pieces → Header
header_of p = record { name = p.name ++ flat p.more_name; value = p.value ++ flat p.more_value }

abbrev pub AllNamed : List Pieces → Type 0
AllNamed [] = Unit
AllNamed (p ∷ ps) = (is_nil (header_of p).name ≡ false) × AllNamed ps

unfoldable pub feed : MessageData → List Pieces → MessageData
feed md [] = md
feed md (p ∷ ps) =
    feed
      (each on_header_value
        (on_header_value (each on_header_field (on_header_field md p.name) p.more_name) p.value)
        p.more_value)
      ps

abbrev at : Message → List ℕ → List ℕ → Bool → MessageData
at hm key sbuf done = record { hm = hm; key = key; sbuf = sbuf; done = done }

each_field :
    (hm : Message) (sbuf : List ℕ) (done : Bool) (ss : List (List ℕ))
    → each on_header_field (at hm [] sbuf done) ss ≡ at hm [] (sbuf ++ flat ss) done
unfolding on_header_field
each_field hm sbuf done [] = ap (λ t. at hm [] t done) (sym (append-nil sbuf))
each_field hm sbuf done (s ∷ ss) =
    each_field hm (sbuf ++ s) done ss ∙ ap (λ t. at hm [] t done) (append_assoc sbuf s (flat ss))

each_value :
    (hm : Message) (c : ℕ) (key sbuf : List ℕ) (done : Bool) (ss : List (List ℕ))
    → each on_header_value (at hm (c ∷ key) sbuf done) ss ≡ at hm (c ∷ key) (sbuf ++ flat ss) done
unfolding on_header_value
each_value hm c key sbuf done [] = ap (λ t. at hm (c ∷ key) t done) (sym (append-nil sbuf))
each_value hm c key sbuf done (s ∷ ss) =
    each_value hm c key (sbuf ++ s) done ss
    ∙ ap (λ t. at hm (c ∷ key) t done) (append_assoc sbuf s (flat ss))

value_at :
    (hm : Message) (key value : List ℕ) (done : Bool) (ss : List (List ℕ))
    → is_nil key ≡ false
    → each on_header_value (at hm key value done) ss ≡ at hm key (value ++ flat ss) done
value_at hm [] value done ss e = absurd (ground arith)
value_at hm (c ∷ key) value done ss e = each_value hm c key value done ss

-- One line, from the callback for the first piece of its name on.
line :
    (hm : Message) (p : Pieces) (done : Bool)
    → is_nil (header_of p).name ≡ false
    → each on_header_value
        (on_header_value (each on_header_field (at hm [] p.name done) p.more_name) p.value)
        p.more_value
      ≡ at hm (header_of p).name (header_of p).value done
unfolding on_header_value
line hm p done e =
    ap (λ md. each on_header_value (on_header_value md p.value) p.more_value)
      (each_field hm p.name done p.more_name)
    ∙ value_at hm (header_of p).name p.value done p.more_value e

-- What `on_headers_complete` leaves.
abbrev Completes : Status → MessageData → List Header → List ℕ → Bool → Type 0
Completes hp md hs url done =
    ((on_headers_complete hp md).hm.raw_headers ≡ hs)
    × ((on_headers_complete hp md).hm.url ≡ url)
    × ((on_headers_complete hp md).sbuf ≡ [])
    × ((on_headers_complete hp md).done ≡ done)

Completes-pending :
    (hp : Status) (hm : Message) (key value : List ℕ) (done : Bool) (ps : List Pieces)
    → is_nil key ≡ false
    → AllNamed ps
    → Completes hp
        (feed (at hm key value done) ps)
        (hm.raw_headers ++ (record { name = key; value = value } ∷ map header_of ps))
        hm.url
        done
unfolding feed on_headers_complete on_header_field
Completes-pending hp hm [] value done ps e v = absurd (ground arith)
Completes-pending hp hm (c ∷ key) value done [] e v = (refl, refl, refl, refl)
Completes-pending hp hm (c ∷ key) value done (p ∷ ps) e (named, v) =
    let added = add_header hm (c ∷ key) value in
    let rest = Completes-pending hp added (header_of p).name (header_of p).value done ps named v in
    let whole =
      append_assoc hm.raw_headers (record { name = c ∷ key; value = value } ∷ [])
        (map header_of (p ∷ ps)) in
    subst
      (λ md.
        Completes hp (feed md ps)
          (hm.raw_headers ++ (record { name = c ∷ key; value = value } ∷ map header_of (p ∷ ps)))
          hm.url done)
      (sym (line added p done named))
      (subst
        (λ hs.
          Completes hp (feed (at added (header_of p).name (header_of p).value done) ps) hs hm.url
            done)
        whole rest)

Completes-feed :
    (hp : Status) (hm : Message) (done : Bool) (ps : List Pieces)
    → hm.raw_headers ≡ []
    → AllNamed ps
    → Completes hp (feed (at hm [] [] done) ps) (map header_of ps) hm.url done
unfolding feed on_headers_complete on_header_field
Completes-feed hp hm done [] fresh v = (fresh, refl, refl, refl)
Completes-feed hp hm done (p ∷ ps) fresh (named, v) =
    let rest = Completes-pending hp hm (header_of p).name (header_of p).value done ps named v in
    subst (λ md. Completes hp (feed md ps) (map header_of (p ∷ ps)) hm.url done)
      (sym (line hm p done named))
      (subst
        (λ hs.
          Completes hp (feed (at hm (header_of p).name (header_of p).value done) ps)
            (hs ++ map header_of (p ∷ ps)) hm.url done)
        fresh rest)

each_body :
    (md : MessageData) (ss : List (List ℕ))
    → each on_body md ss ≡ record md { sbuf = md.sbuf ++ flat ss }
unfolding on_body
each_body md [] = ap (λ t. record md { sbuf = t }) (sym (append-nil md.sbuf))
each_body md (s ∷ ss) =
    each_body (record md { sbuf = md.sbuf ++ s }) ss
    ∙ ap (λ t. record md { sbuf = t }) (append_assoc md.sbuf s (flat ss))

each_url :
    (hm : Message) (key sbuf : List ℕ) (done : Bool) (ss : List (List ℕ))
    → each on_url (at hm key sbuf done) ss
      ≡ at (record hm { url = hm.url ++ flat ss }) key sbuf done
unfolding on_url
each_url hm key sbuf done [] =
    ap (λ t. at (record hm { url = t }) key sbuf done) (sym (append-nil hm.url))
each_url hm key sbuf done (s ∷ ss) =
    each_url (record hm { url = hm.url ++ s }) key sbuf done ss
    ∙ ap (λ t. at (record hm { url = t }) key sbuf done) (append_assoc hm.url s (flat ss))

-- The callbacks of a message in the order in which the parser makes them.
unfoldable pub received :
    Codes → Status → MessageData → List (List ℕ) → List Pieces → List (List ℕ) → MessageData
received codes hp md us ps bs = on_message_complete (
    each on_body (on_headers_complete hp (feed (each on_url (on_message_begin codes md) us) ps)) bs)

-- However the parser cuts the URL, the header lines and the body of a message into pieces, the message
-- that it builds in a fresh stream has that URL, those headers in order and that body, and is done; no
-- name is empty, and name and value of a header each come in at least one piece.
pub received_lem :
    (codes : Codes) (hp : Status) (md : MessageData) (us : List (List ℕ)) (ps : List Pieces)
    (bs : List (List ℕ))
    → md.sbuf ≡ []
    → AllNamed ps
    → ((received codes hp md us ps bs).hm.url ≡ flat us)
      × ((received codes hp md us ps bs).hm.raw_headers ≡ map header_of ps)
      × ((received codes hp md us ps bs).hm.body ≡ flat bs)
      × ((received codes hp md us ps bs).done ≡ true)
unfolding received on_message_begin on_message_complete do_clear
received_lem codes hp md us ps bs fresh v =
    let cleared = do_clear codes md.hm in
    let named = record cleared { url = flat us } in
    let begun : each on_url (on_message_begin codes md) us ≡ at named [] [] md.done =
      each_url cleared [] md.sbuf md.done us ∙ ap (λ t. at named [] t md.done) fresh in
    let (headers, url, empty, done) =
      subst (λ q. Completes hp (feed q ps) (map header_of ps) (flat us) md.done) (sym begun)
        (Completes-feed hp named md.done ps refl v) in
    let body =
      each_body (on_headers_complete hp (feed (each on_url (on_message_begin codes md) us) ps))
        bs in
    (
      ap (λ q. q.hm.url) body ∙ url,
      ap (λ q. q.hm.raw_headers) body ∙ headers,
      ap (λ q. q.sbuf) body ∙ ap (λ t. t ++ flat bs) empty,
      refl,
    )
