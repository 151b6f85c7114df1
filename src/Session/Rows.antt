-- ===== src/Session/Rows.antt =====
-- The rows of Session/Owed.antt are those that Session/Promise.antt writes out.
use whatsapp_cli.Common.{
  ◌≡◌, refl, ap, ◌∙◌, Bool, true, false, ◌&&◌, ◌||◌, Option, List, [], ◌∷◌, ◌++◌, map,
}
use whatsapp_cli.Common.Tests.{if◌then◌else◌}
use whatsapp_cli.Common.Utf8.{Str, codes, same_bytes}
use whatsapp_cli.WaBinary.Node.{Jid, Node, tag_of, null, attr_or, is_text}
use whatsapp_cli.Session.Stanzas.{
  has_tag, is_server_ping, iq_result, ack_stanza, is_own_echo, receipt, protocol_receipt,
}
use whatsapp_cli.Session.Owed.{Row, request, message, event, other, row_of, owed, phone_receipts}
use whatsapp_cli.Session.Promise.{
  Kind, wants_result, wants_receipts, wants_ack, wants_nothing, kind_for, answers_to, for_our_phone,
}
use whatsapp_cli.Session.Spelled.{
  is_text-says, asks, result_for_lem, phone_receipt_for_lem, receipt_for_lem, ack_for_lem,
  is_own_echo-our_echo,
}

for_our_phone_lem : (n : Node) (extra : List Str) → phone_receipts n extra ≡ for_our_phone n extra
unfolding phone_receipts
for_our_phone_lem n extra =
    ap (λ peer. if peer then extra ++ codes "peer_msg" ∷ [] else extra)
      (is_text-says (codes "category") (codes "peer") n)

unfoldable pub kind_of : Row → Kind
kind_of request = wants_result
kind_of message = wants_receipts
kind_of event = wants_ack
kind_of other = wants_nothing

kind_of-tests :
    (b1 b2 b3 : Bool)
    → kind_of (if b1 then request else if b2 then message else if b3 then event else other) ≡ (
        if b1
        then wants_result
        else if b2
        then wants_receipts
        else if b3
        then wants_ack
        else wants_nothing)
unfolding kind_of
kind_of-tests true b2 b3 = refl
kind_of-tests false true b3 = refl
kind_of-tests false false true = refl
kind_of-tests false false false = refl

pub kind_of-row_of : (n : Node) → kind_of (row_of n) ≡ kind_for n
unfolding row_of kind_for kind_of
kind_of-row_of n =
    kind_of-tests
      (has_tag n (codes "iq")
        && (is_server_ping n || is_text (attr_or (codes "type") null n) (codes "set")))
      (has_tag n (codes "message"))
      (has_tag n (codes "notification")
        || (has_tag n (codes "call") || has_tag n (codes "receipt")))
    ∙ ap
        (λ b1.
          if b1
          then wants_result
          else if same_bytes (tag_of n) (codes "message")
          then wants_receipts
          else if same_bytes (tag_of n) (codes "notification")
              || (same_bytes (tag_of n) (codes "call") || same_bytes (tag_of n) (codes "receipt"))
          then wants_ack
          else wants_nothing)
        (asks n)

pub owed-answers_to :
    (own_pn : Jid) (own_lid : Option Jid) (n : Node) (extra : List Str)
    → owed own_pn own_lid n extra ≡ answers_to (kind_for n) own_pn own_lid n extra
unfolding owed answers_to kind_of
owed-answers_to own_pn own_lid n extra =
    by_row (row_of n) ∙ ap (λ k. answers_to k own_pn own_lid n extra) (kind_of-row_of n)
  where
    by_row :
        (r : Row)
        → (elim r [
          | request ↦ iq_result n ∷ []
          | message ↦
              ack_stanza n
              ∷ receipt (is_own_echo own_pn own_lid n) n
              ∷ (if is_own_echo own_pn own_lid n
                  then map (protocol_receipt own_pn n) (phone_receipts n extra)
                  else [])
          | event ↦ ack_stanza n ∷ []
          | other ↦ []
        ])
          ≡ answers_to (kind_of r) own_pn own_lid n extra
    by_row request = ap (λ x. x ∷ []) (result_for_lem n)
    by_row message = λ i.
        let echo = is_own_echo-our_echo own_pn own_lid n i in
        ack_for_lem n i
        ∷ receipt_for_lem echo n i
        ∷ (if echo
            then map (λ t. phone_receipt_for_lem own_pn n t i) (for_our_phone_lem n extra i)
            else [])
    by_row event = ap (λ x. x ∷ []) (ack_for_lem n)
    by_row other = refl
