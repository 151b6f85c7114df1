-- ===== src/WaBinary/Jids.antt =====
-- Reading back the JIDs that wa/wabinary/encoder.py writes.
use whatsapp_cli.Common.{
  ℕ, zero, suc, ◌+◌, ◌%◌, ◌^◌, ◌≤◌, ◌≡◌, refl, sym, ap, ◌∙◌, Bool, true, false, [], ◌∷◌, ◌++◌,
  arith, inl, inr, append_assoc,
}
use whatsapp_cli.Common.Tests.{◌==◌, if◌then◌else◌, Bool-cases}
use whatsapp_cli.Common.Lists.{length, length-append, drop, drop_past}
use whatsapp_cli.Common.Outcome.{Outcome, ok, raise}
use whatsapp_cli.Common.Utf8.{Bytes, Str, same_bytes}
use whatsapp_cli.WaBinary.Tokens.{list_empty, ad_jid, fb_jid, interop_jid, jid_pair}
use whatsapp_cli.WaBinary.Node.{Jid, is_ad, actual_agent, messenger_server, interop_server, jid}
use whatsapp_cli.WaBinary.Packed.{read_u8}
use whatsapp_cli.WaBinary.Packing.{read_u8_at}
use whatsapp_cli.WaBinary.Encoder.{push_u16_be, write_user, write_jid}
use whatsapp_cli.WaBinary.Decoder.{
  kind_of, server_of_agent, read_string, next_string, next_value, read_user, read_jid_pair,
  read_ad_jid, read_fb_jid, read_interop_jid, read_kind, read_value,
}
use whatsapp_cli.WaBinary.Binary.{Reads, next_value_at, read_u16_be-push_u16_be}
use whatsapp_cli.WaBinary.Strings.{IsWritable, next_string-write_string}

abbrev pub plain_jid : Str → Str → ℕ → ℕ → ℕ → Jid
plain_jid user server agent device integrator = record {
  user = user;
  server = server;
  agent = agent;
  device = device;
  integrator = integrator;
}

-- What of a JID the wire keeps.
unfoldable pub wire_jid : Jid → Jid
wire_jid j =
    if is_ad j
    then plain_jid j.user (server_of_agent (actual_agent j % 256)) (actual_agent j % 256)
        (j.device % 256) 0
    else if same_bytes j.server messenger_server
    then plain_jid j.user j.server 0 (j.device % 2 ^ 16) 0
    else if same_bytes j.server interop_server
    then plain_jid j.user j.server 0 (j.device % 2 ^ 16) (j.integrator % 2 ^ 16)
    else plain_jid j.user j.server 0 0 0

abbrev pub IsWritableJid : Jid → Type 0
IsWritableJid j = IsWritable j.user × IsWritable j.server

-- `_read_string` at a position, with the rest behind it.
abbrev NextString : Bytes → Str → Type 0
NextString enc s =
    (depth : ℕ) (bytes : Bytes) (pos : ℕ) (rest : Bytes)
    → drop pos bytes ≡ enc ++ rest
    → next_string (read_value bytes (suc depth)) bytes pos ≡ ok (s, pos + length enc)

abbrev NextUser : Bytes → Str → Type 0
NextUser enc s =
    (depth : ℕ) (bytes : Bytes) (pos : ℕ) (rest : Bytes)
    → drop pos bytes ≡ enc ++ rest
    → read_user (read_value bytes (suc depth)) bytes pos ≡ ok (s, pos + length enc)

-- The test for an empty user makes no difference, since the value of that tag is the empty text.
read_user_is_next_string :
    (depth : ℕ) (bytes : Bytes) (pos : ℕ)
    → read_user (read_value bytes (suc depth)) bytes pos
      ≡ next_string (read_value bytes (suc depth)) bytes pos
read_user_is_next_string depth bytes pos = go (read_u8 bytes pos) refl
  where
    empty :
        (pos1 : ℕ)
        → read_string (read_value bytes (suc depth)) bytes list_empty pos1 ≡ ok ([], pos1)
    empty pos1 = unfold read_string read_value read_kind kind_of in refl

    go :
        (o : Outcome (ℕ × ℕ))
        → read_u8 bytes pos ≡ o
        → read_user (read_value bytes (suc depth)) bytes pos
          ≡ next_string (read_value bytes (suc depth)) bytes pos
    go (raise e) at = unfold read_user next_string in ground (arith, at)
    go (ok (zero, pos1)) at = unfold read_user next_string in rw at (sym (empty pos1))
    go (ok (suc tag, pos1)) at =
        let positive : (suc tag == list_empty) ≡ false = ground arith in
        unfold read_user next_string in rw at (rw positive refl)

user_written : (s : Str) → IsWritable s → (enc : Bytes) × (write_user s ≡ ok enc) × NextUser enc s
user_written [] h = (
  list_empty ∷ [],
  unfold write_user in refl,
  λ depth bytes pos rest here.
      unfold read_user in rw (read_u8_at bytes pos list_empty rest here) refl,
)
user_written (c ∷ s) h =
    let (enc, written, _, reads) = next_string-write_string (c ∷ s) h in
    (
      enc,
      unfold write_user in written,
      λ depth bytes pos rest here.
          read_user_is_next_string depth bytes pos ∙ reads depth bytes pos rest here,
    )

-- How a JID is written, and what it is read as, in attributes and contents alike.
pub record WrittenJid (j : Jid) : Type 0 where
  pub enc : Bytes
  pub written : write_jid j ≡ ok enc
  pub some_bytes : 2 ≤ length enc
  pub reads :
      (depth : ℕ) (as_string : Bool) → Reads (suc (suc depth)) as_string enc (jid (wire_jid j))

module _ (j : Jid) (h : IsWritableJid j) where
  ad_written : is_ad j ≡ true → WrittenJid j
  ad_written e =
      let (user, user_ok, _, reads_user) = next_string-write_string j.user (h.0) in
      let agent = actual_agent j % 256 in
      let device = j.device % 256 in
      record {
        enc = ad_jid ∷ agent ∷ device ∷ user;
        written = unfold write_jid in rw e (rw user_ok refl);
        some_bytes = omega arith;
        reads = λ depth as_string bytes pos rest here.
            let h1 = drop_past pos bytes (ad_jid ∷ []) (agent ∷ device ∷ (user ++ rest)) here in
            let h2 = drop_past (pos + 1) bytes (agent ∷ []) (device ∷ (user ++ rest)) h1 in
            let h3 = drop_past (pos + 1 + 1) bytes (device ∷ []) (user ++ rest) h2 in
            let far : pos + 1 + 1 + 1 + length user ≡ pos + suc (suc (suc (length user))) =
              omega arith in
            next_value_at (suc depth) as_string bytes pos ad_jid (agent ∷ device ∷ (user ++ rest))
              here
            ∙ (unfold read_kind kind_of read_ad_jid wire_jid in
                rw (read_u8_at bytes (pos + 1) agent (device ∷ (user ++ rest)) h1) (
                  rw (read_u8_at bytes (pos + 1 + 1) device (user ++ rest) h2)
                    (rw (reads_user depth bytes (pos + 1 + 1 + 1) rest h3) (rw e (rw far refl)))));
      }

  pair_written :
      is_ad j ≡ false
      → same_bytes j.server messenger_server ≡ false
      → same_bytes j.server interop_server ≡ false
      → WrittenJid j
  pair_written e e1 e2 =
      let (user, user_ok, reads_user) = user_written j.user (h.0) in
      let (server, server_ok, filled, reads_server) = next_string-write_string j.server (h.1) in
      record {
        enc = jid_pair ∷ (user ++ server);
        written = unfold write_jid in rw (e, e1, e2) (rw user_ok (rw server_ok refl));
        some_bytes = omega (arith, length-append user server, filled);
        reads = λ depth as_string bytes pos rest here.
            let here' : drop pos bytes ≡ jid_pair ∷ (user ++ (server ++ rest)) =
              here ∙ ap (λ (t : Bytes). jid_pair ∷ t) (append_assoc user server rest) in
            let h1 = drop_past pos bytes (jid_pair ∷ []) (user ++ (server ++ rest)) here' in
            let h2 = drop_past (pos + 1) bytes user (server ++ rest) h1 in
            let far : pos + 1 + length user + length server ≡ pos + suc (length (user ++ server)) =
              omega (arith, length-append user server) in
            next_value_at (suc depth) as_string bytes pos jid_pair (user ++ (server ++ rest)) here'
            ∙ (unfold read_kind kind_of read_jid_pair wire_jid in
                rw (reads_user depth bytes (pos + 1) (server ++ rest) h1) (
                  rw (reads_server depth bytes (pos + 1 + length user) rest h2)
                    (rw (e, e1, e2) (rw far refl))));
      }

  messenger_written : is_ad j ≡ false → same_bytes j.server messenger_server ≡ true → WrittenJid j
  messenger_written e e1 =
      let (user, user_ok, _, reads_user) = next_string-write_string j.user (h.0) in
      let (server, server_ok, filled, reads_server) = next_string-write_string j.server (h.1) in
      let device = push_u16_be j.device in
      record {
        enc = fb_jid ∷ (user ++ (device ++ server));
        written = unfold write_jid in rw (e, e1) (rw user_ok (rw server_ok refl));
        some_bytes = omega (arith, length-append user (device ++ server));
        reads = λ depth as_string bytes pos rest here.
            let here' : drop pos bytes ≡ fb_jid ∷ (user ++ (device ++ (server ++ rest))) =
              here ∙ ap (λ (t : Bytes). fb_jid ∷ t) (append_assoc user (device ++ server) rest) in
            let h1 =
              drop_past pos bytes (fb_jid ∷ []) (user ++ (device ++ (server ++ rest))) here' in
            let pos2 = pos + 1 + length user in
            let h2 = drop_past (pos + 1) bytes user (device ++ (server ++ rest)) h1 in
            let h3 = drop_past pos2 bytes device (server ++ rest) h2 in
            let far : pos2 + 2 + length server ≡ pos + suc (length (user ++ (device ++ server))) =
              omega (arith, length-append user (device ++ server)) in
            next_value_at (suc depth) as_string bytes pos fb_jid
              (user ++ (device ++ (server ++ rest))) here'
            ∙ (unfold read_kind kind_of read_fb_jid wire_jid in
                rw (reads_user depth bytes (pos + 1) (device ++ (server ++ rest)) h1) (
                  rw (read_u16_be-push_u16_be j.device bytes pos2 (server ++ rest) h2)
                    (rw (reads_server depth bytes (pos2 + 2) rest h3) (rw (e, e1) (rw far refl)))));
      }

  interop_written :
      is_ad j ≡ false
      → same_bytes j.server messenger_server ≡ false
      → same_bytes j.server interop_server ≡ true
      → WrittenJid j
  interop_written e e1 e2 =
      let (user, user_ok, _, reads_user) = next_string-write_string j.user (h.0) in
      let (server, server_ok, filled, reads_server) = next_string-write_string j.server (h.1) in
      let device = push_u16_be j.device in
      let integrator = push_u16_be j.integrator in
      record {
        enc = interop_jid ∷ (user ++ (device ++ (integrator ++ server)));
        written = unfold write_jid in rw (e, e1, e2) (rw user_ok (rw server_ok refl));
        some_bytes = omega (arith, length-append user (device ++ (integrator ++ server)));
        reads = λ depth as_string bytes pos rest here.
            let tail = device ++ (integrator ++ (server ++ rest)) in
            let here' : drop pos bytes ≡ interop_jid ∷ (user ++ tail) =
              here
              ∙ ap (λ (t : Bytes). interop_jid ∷ t)
                  (append_assoc user (device ++ (integrator ++ server)) rest) in
            let h1 = drop_past pos bytes (interop_jid ∷ []) (user ++ tail) here' in
            let pos2 = pos + 1 + length user in
            let h2 = drop_past (pos + 1) bytes user tail h1 in
            let h3 = drop_past pos2 bytes device (integrator ++ (server ++ rest)) h2 in
            let h4 = drop_past (pos2 + 2) bytes integrator (server ++ rest) h3 in
            let far : pos2 + 2 + 2 + length server
                ≡ pos + suc (length (user ++ (device ++ (integrator ++ server)))) =
              omega (arith, length-append user (device ++ (integrator ++ server))) in
            next_value_at (suc depth) as_string bytes pos interop_jid (user ++ tail) here'
            ∙ (unfold read_kind kind_of read_interop_jid wire_jid in
                rw (reads_user depth bytes (pos + 1) tail h1) (
                  rw
                    (read_u16_be-push_u16_be j.device bytes pos2 (integrator ++ (server ++ rest))
                      h2)
                    (rw (read_u16_be-push_u16_be j.integrator bytes (pos2 + 2) (server ++ rest) h3)
                      (rw (reads_server depth bytes (pos2 + 2 + 2) rest h4)
                        (rw (e, e1, e2) (rw far refl))))));
      }

  pub written_jid : WrittenJid j
  written_jid = elim (Bool-cases (is_ad j)) [
    | inl e ↦ ad_written e
    | inr e ↦ elim (Bool-cases (same_bytes j.server messenger_server)) [
      | inl e1 ↦ messenger_written e e1
      | inr e1 ↦ elim (Bool-cases (same_bytes j.server interop_server)) [
        | inl e2 ↦ interop_written e e1 e2
        | inr e2 ↦ pair_written e e1 e2
      ]
    ]
  ]

  -- A JID whose user and server are text below 2 ^ 31 bytes is written, and wherever it stands in a
  -- buffer `_read_value` gives what `wire_jid` keeps of it, with the position behind it.
  pub next_value-write_jid :
      (enc : Bytes) × (write_jid j ≡ ok enc)
      × ((depth : ℕ) (as_string : Bool) (bytes : Bytes) (pos : ℕ) (rest : Bytes)
          → drop pos bytes ≡ enc ++ rest
          → next_value (read_value bytes (suc (suc depth))) bytes as_string pos
            ≡ ok (jid (wire_jid j), pos + length enc))
  next_value-write_jid =
      let w = written_jid in
      (
        w.enc,
        w.written,
        λ depth as_string bytes pos rest here. w.reads depth as_string bytes pos rest here,
      )
