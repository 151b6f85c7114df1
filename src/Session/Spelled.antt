-- ===== src/Session/Spelled.antt =====
-- The tests and stanzas of wa/session.py are those of Session/Promise.antt.
use whatsapp_cli.Common.{
  ℕ, ◌≡◌, refl, sym, ap, ◌∙◌, Bool, true, false, not, ◌&&◌, ◌||◌, Option, none, some, [], ◌∷◌,
  arith, inl, inr,
}
use whatsapp_cli.Common.Tests.{◌==◌, ltb, if◌then◌else◌, Bool-cases}
use whatsapp_cli.Common.Utf8.{Str, codes, same_bytes}
use whatsapp_cli.WaBinary.Node.{
  Jid, Node, node, tag_of, attrs_of, Attrs, no_attrs, attr, Value, null, text, number, flag, jid,
  blob, children, Nodes, nil, cons, get_children, get_attr, set_attr, attr_or, is_text, truthy,
}
use whatsapp_cli.Session.Stanzas.{
  has_tag, id_of, str_of, any_tag, is_server_ping, iq_result, ack_stanza, is_own, is_own_echo,
  receipt, protocol_receipt,
}
use whatsapp_cli.Session.Promise.{
  given, says, result_for, ack_for, receipt_for, phone_receipt_for, some_child, asks_ping, by_us,
  falsy, our_echo, to_server, id_text,
}

says_value :
    (o : Option Value) (word : Str)
    → is_text (elim o [ none ↦ null | some v ↦ v ]) word
      ≡ (elim o [ none ↦ false | some v ↦ elim v [ text s ↦ same_bytes s word | _ ↦ false ] ])
says_value none word = refl
says_value (some null) word = refl
says_value (some (text s)) word = refl
says_value (some (number n)) word = refl
says_value (some (flag b)) word = refl
says_value (some (jid j)) word = refl
says_value (some (blob b)) word = refl
says_value (some (children ns)) word = refl

pub is_text-says : (key word : Str) (n : Node) → is_text (attr_or key null n) word ≡ says n key word
unfolding attr_or
is_text-says key word n = says_value (get_attr key (attrs_of n)) word

says_or_empty :
    (o : Option Value) (c : ℕ) (word : Str)
    → is_text (elim o [ none ↦ text [] | some v ↦ v ]) (c ∷ word)
      ≡ (elim o [ none ↦ false | some v ↦ elim v [ text s ↦ same_bytes s (c ∷ word) | _ ↦ false ] ])
unfolding same_bytes
says_or_empty none c word = refl
says_or_empty (some null) c word = refl
says_or_empty (some (text s)) c word = refl
says_or_empty (some (number n)) c word = refl
says_or_empty (some (flag b)) c word = refl
says_or_empty (some (jid j)) c word = refl
says_or_empty (some (blob b)) c word = refl
says_or_empty (some (children ns)) c word = refl

is_text-says_or_empty :
    (key : Str) (c : ℕ) (word : Str) (n : Node)
    → is_text (attr_or key (text []) n) (c ∷ word) ≡ says n key (c ∷ word)
unfolding attr_or
is_text-says_or_empty key c word n = says_or_empty (get_attr key (attrs_of n)) c word

any_tag-some_child : (tag : Str) (ns : Nodes) → any_tag tag ns ≡ some_child tag ns
unfolding any_tag some_child
any_tag-some_child tag nil = refl
any_tag-some_child tag (cons n ns) = elim (Bool-cases (same_bytes (tag_of n) tag)) [
  | inl e ↦ rw (e) refl
  | inr e ↦ rw (e) (any_tag-some_child tag ns)
]

pings :
    (iq get x1 x2 child rest : Bool)
    → (iq && ((if not iq || not get then false else if x1 || x2 then true else child) || rest))
      ≡ (iq && ((get && (x1 || (x2 || child))) || rest))
pings false get x1 x2 child rest = refl
pings true false x1 x2 child rest = refl
pings true true true x2 child rest = refl
pings true true false true child rest = refl
pings true true false false child rest = refl

abbrev copied : Str → Option Value → Attrs → Attrs
copied key o attrs = elim o [ none ↦ attrs | some v ↦ set_attr key v attrs ]

abbrev kept : Str → Option Value → Attrs → Attrs
kept key o rest = elim o [ none ↦ rest | some v ↦ attr key v rest ]

abbrev put : Bool → Attrs → Attrs
put echo attrs = if echo then set_attr (codes "type") (text (codes "sender")) attrs else attrs

pub asks :
    (n : Node)
    → (has_tag n (codes "iq")
        && (is_server_ping n || is_text (attr_or (codes "type") null n) (codes "set")))
      ≡ (same_bytes (tag_of n) (codes "iq") && (asks_ping n || says n (codes "type") (codes "set")))
unfolding is_server_ping
asks n =
    (λ i.
      same_bytes (tag_of n) (codes "iq")
      && ((if not (same_bytes (tag_of n) (codes "iq"))
              || not (is_text-says (codes "type") (codes "get") n i)
            then false
            else if is_text-says_or_empty (codes "xmlns") 117 (codes "rn:xmpp:ping") n i
                || is_text-says_or_empty (codes "xmlns") 119 (codes ":p") n i
            then true
            else any_tag-some_child (codes "ping") (get_children n) i)
          || is_text-says (codes "type") (codes "set") n i))
    ∙ pings (same_bytes (tag_of n) (codes "iq")) (says n (codes "type") (codes "get"))
        (says n (codes "xmlns") (codes "urn:xmpp:ping")) (says n (codes "xmlns") (codes "w:p"))
        (some_child (codes "ping") (get_children n)) (says n (codes "type") (codes "set"))

pub result_for_lem : (n : Node) → iq_result n ≡ result_for n
unfolding iq_result attr_or
result_for_lem n = refl

pub phone_receipt_for_lem :
    (own_pn : Jid) (n : Node) (t : Str) → protocol_receipt own_pn n t ≡ phone_receipt_for own_pn n t
unfolding protocol_receipt attr_or
phone_receipt_for_lem own_pn n t = refl

pub receipt_for_lem : (echo : Bool) (n : Node) → receipt echo n ≡ receipt_for echo n
unfolding receipt attr_or set_attr same_bytes
receipt_for_lem echo n =
    by_attrs (get_attr (codes "participant") (attrs_of n))
      (get_attr (codes "recipient") (attrs_of n)) echo
  where
    base : Attrs
    base =
        attr (codes "id") (given (codes "id") (text []) n)
          (attr (codes "to") (given (codes "from") to_server n) no_attrs)

    by_attrs :
        (p r : Option Value) (b : Bool)
        → node
            (codes "receipt")
            (put b (copied (codes "recipient") r (copied (codes "participant") p base)))
            null
          ≡ node
              (codes "receipt")
              (attr (codes "id") (given (codes "id") (text []) n) (
                attr (codes "to") (given (codes "from") to_server n) (
                  kept (codes "participant") p (
                    kept (codes "recipient") r (
                      if b
                      then attr (codes "type") (text (codes "sender")) no_attrs
                      else no_attrs)))))
              null
    by_attrs none none true = refl
    by_attrs none none false = refl
    by_attrs none (some r) true = refl
    by_attrs none (some r) false = refl
    by_attrs (some p) none true = refl
    by_attrs (some p) none false = refl
    by_attrs (some p) (some r) true = refl
    by_attrs (some p) (some r) false = refl

pub ack_for_lem : (n : Node) → ack_stanza n ≡ ack_for n
unfolding ack_stanza attr_or set_attr same_bytes
ack_for_lem n =
    by_attrs (get_attr (codes "participant") (attrs_of n))
      (get_attr (codes "recipient") (attrs_of n)) (get_attr (codes "type") (attrs_of n))
      (same_bytes (tag_of n) (codes "message"))
  where
    front : Attrs → Attrs
    front rest = attr (codes "class") (text (tag_of n)) (
        attr (codes "id") (given (codes "id") (text []) n)
          (attr (codes "to") (given (codes "from") to_server n) rest))

    by_attrs :
        (p r t : Option Value) (b : Bool)
        → node
            (codes "ack")
            (if b
              then copied (codes "recipient") r (copied (codes "participant") p (front no_attrs))
              else copied
                  (codes "type")
                  t
                  (copied (codes "recipient") r (copied (codes "participant") p (front no_attrs))))
            null
          ≡ node
              (codes "ack")
              (front (
                kept (codes "participant") p (
                  kept
                    (codes "recipient")
                    r
                    (if b then no_attrs else kept (codes "type") t no_attrs))))
              null
    by_attrs none none t true = refl
    by_attrs none (some r) t true = refl
    by_attrs (some p) none t true = refl
    by_attrs (some p) (some r) t true = refl
    by_attrs none none none false = refl
    by_attrs none none (some t) false = refl
    by_attrs none (some r) none false = refl
    by_attrs none (some r) (some t) false = refl
    by_attrs (some p) none none false = refl
    by_attrs (some p) none (some t) false = refl
    by_attrs (some p) (some r) none false = refl
    by_attrs (some p) (some r) (some t) false = refl

or_false : (b : Bool) → (b || false) ≡ b
or_false true = refl
or_false false = refl

is_own-by_us :
    (own_pn : Jid) (own_lid : Option Jid) (v : Value)
    → is_own own_pn own_lid v ≡ by_us own_pn own_lid v
is_own-by_us own_pn none (jid j) = sym (or_false (same_bytes j.user own_pn.user))
is_own-by_us own_pn (some lid) (jid j) = refl
is_own-by_us own_pn none null = refl
is_own-by_us own_pn (some lid) null = refl
is_own-by_us own_pn none (text s) = refl
is_own-by_us own_pn (some lid) (text s) = refl
is_own-by_us own_pn none (number n) = refl
is_own-by_us own_pn (some lid) (number n) = refl
is_own-by_us own_pn none (flag b) = refl
is_own-by_us own_pn (some lid) (flag b) = refl
is_own-by_us own_pn none (blob b) = refl
is_own-by_us own_pn (some lid) (blob b) = refl
is_own-by_us own_pn none (children ns) = refl
is_own-by_us own_pn (some lid) (children ns) = refl

positive_test : (n : ℕ) → ltb 0 n ≡ not (n == 0)
positive_test n = ground arith

if-not : {A : Type 0} (b : Bool) (x y : A) → (if not b then x else y) ≡ (if b then y else x)
if-not true x y = refl
if-not false x y = refl

or_else :
    {A : Type 0} (v : Value) (x y : A) → (if truthy v then x else y) ≡ (if falsy v then y else x)
or_else null x y = refl
or_else (text []) x y = refl
or_else (text (c ∷ s)) x y = refl
or_else (number n) x y =
    ap (λ (b : Bool). if b then x else y) (positive_test n) ∙ if-not (n == 0) x y
or_else (flag true) x y = refl
or_else (flag false) x y = refl
or_else (jid j) x y = refl
or_else (blob []) x y = refl
or_else (blob (b ∷ bs)) x y = refl
or_else (children nil) x y = refl
or_else (children (cons n ns)) x y = refl

pub is_own_echo-our_echo :
    (own_pn : Jid) (own_lid : Option Jid) (n : Node)
    → is_own_echo own_pn own_lid n ≡ our_echo own_pn own_lid n
unfolding is_own_echo attr_or
is_own_echo-our_echo own_pn own_lid n =
    let p = given (codes "participant") null n in
    let f = given (codes "from") null n in
    is_own-by_us own_pn own_lid (if truthy p then p else f)
    ∙ ap (by_us own_pn own_lid) (or_else p p f)

pub id_of-id_text : (repr : Value → Str) (n : Node) → id_of repr n ≡ id_text (str_of repr) n
unfolding id_of attr_or
id_of-id_text repr n = let v = given (codes "id") (text []) n in or_else v (str_of repr v) []
