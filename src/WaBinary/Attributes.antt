-- ===== src/WaBinary/Attributes.antt =====
-- Reading back the attributes that wa/wabinary/encoder.py writes.
use whatsapp_cli.Common.{
  ℕ, zero, suc, ◌+◌, ◌≤◌, ◌≡◌, refl, ap, ◌∙◌, Bool, true, false, [], ◌++◌, arith, inl, inr,
  append_assoc,
}
use whatsapp_cli.Common.Tests.{if◌then◌else◌, Bool-cases}
use whatsapp_cli.Common.Lists.{length, length-append, drop, drop_past}
use whatsapp_cli.Common.Outcome.{Outcome, ok}
use whatsapp_cli.Common.Utf8.{Bytes, Str, codes, utf8_encode}
use whatsapp_cli.WaBinary.Node.{
  Jid, Attrs, no_attrs, attr, Value, null, text, number, flag, jid, blob, children, set_attr,
}
use whatsapp_cli.WaBinary.Encoder.{
  write_string, decimal, is_skipped, count_attrs, write_attrs, write_any,
}
use whatsapp_cli.WaBinary.Decoder.{next_string, next_value, read_attrs, read_value}
use whatsapp_cli.WaBinary.Binary.{Reads}
use whatsapp_cli.WaBinary.Strings.{IsWritable, written_string, next_string-write_string}
use whatsapp_cli.WaBinary.Jids.{IsWritableJid, wire_jid, written_jid}

-- What an attribute's value is read as: text, or a JID.
abbrev pub wire_attr : Value → Value
wire_attr (number n) = text (decimal n)
wire_attr (flag true) = text (codes "true")
wire_attr (flag false) = text (codes "false")
wire_attr (jid j) = jid (wire_jid j)
wire_attr v = v

-- Attributes hold no bytes and no nodes.
abbrev pub IsWritableAttr : Value → Type 0
IsWritableAttr null = Unit {0}
IsWritableAttr (text s) = IsWritable s
IsWritableAttr (number n) = IsWritable (decimal n)
IsWritableAttr (flag b) = Unit {0}
IsWritableAttr (jid j) = IsWritableJid j
IsWritableAttr (blob bytes) = ⊥
IsWritableAttr (children ns) = ⊥

abbrev pub IsWritableAttrs : Attrs → Type 0
IsWritableAttrs no_attrs = Unit {0}
IsWritableAttrs (attr k v attrs) = IsWritable k × IsWritableAttr v × IsWritableAttrs attrs

-- The dict that is read: the attributes that are not skipped, set in order.
unfoldable pub collect_attrs : Attrs → Attrs → Attrs
collect_attrs no_attrs out = out
collect_attrs (attr k v attrs) out =
    if is_skipped v
    then collect_attrs attrs out
    else collect_attrs attrs (set_attr k (wire_attr v) out)

-- How a value is written, and what it is read as at every depth that is enough for its bytes.
pub record WrittenValue (v : Value) (as_string : Bool) (result : Value) : Type 0 where
  pub enc : Bytes
  pub written : write_any v ≡ ok enc
  pub some_bytes : 1 ≤ length enc
  pub reads : (depth : ℕ) → length enc ≤ depth → Reads depth as_string enc result

pub deep_enough :
    (as_string : Bool) (enc : Bytes) (v : Value)
    → 1 ≤ length enc
    → ((depth : ℕ) → Reads (suc depth) as_string enc v)
    → (depth : ℕ) → length enc ≤ depth
    → Reads depth as_string enc v
deep_enough as_string enc v filled reads zero h = absurd (omega arith)
deep_enough as_string enc v filled reads (suc depth) h = reads depth

pub text_value :
    (v : Value) (s : Str)
    → write_any v ≡ write_string s
    → IsWritable s
    → WrittenValue v true (text s)
text_value v s same h =
    let w = written_string s h in
    record {
      enc = w.enc;
      written = same ∙ w.written;
      some_bytes = w.some_bytes;
      reads = deep_enough true w.enc (text s) w.some_bytes w.as_text;
    }

pub jid_value :
    (as_string : Bool) (j : Jid)
    → IsWritableJid j
    → WrittenValue (jid j) as_string (jid (wire_jid j))
jid_value as_string j h =
    let w = written_jid j h in
    record {
      enc = w.enc;
      written = unfold write_any in w.written;
      some_bytes = omega (arith, w.some_bytes);
      reads = deep w.enc w.some_bytes w.reads;
    }
  where
    deep :
        (enc : Bytes)
        → 2 ≤ length enc
        → ((depth : ℕ) (as_string : Bool)
            → Reads (suc (suc depth)) as_string enc (jid (wire_jid j)))
        → (depth : ℕ) → length enc ≤ depth
        → Reads depth as_string enc (jid (wire_jid j))
    deep enc filled reads zero h = absurd (omega arith)
    deep enc filled reads (suc zero) h = absurd (omega arith)
    deep enc filled reads (suc (suc depth)) h = reads depth as_string

pub true-IsWritable : IsWritable (codes "true")
true-IsWritable = (ground arith, unfold utf8_encode in omega arith)

pub false-IsWritable : IsWritable (codes "false")
false-IsWritable = (ground arith, unfold utf8_encode in omega arith)

attr_value :
    (v : Value) → IsWritableAttr v → is_skipped v ≡ false → WrittenValue v true (wire_attr v)
attr_value null h e = cc e
attr_value (text s) h e = text_value (text s) s (unfold write_any in refl) h
attr_value (number n) h e = text_value (number n) (decimal n) (unfold write_any in refl) h
attr_value (flag true) h e =
    text_value (flag true) (codes "true") (unfold write_any in refl) true-IsWritable
attr_value (flag false) h e =
    text_value (flag false) (codes "false") (unfold write_any in refl) false-IsWritable
attr_value (jid j) h e = jid_value true j h
attr_value (blob bytes) h e = absurd h
attr_value (children ns) h e = absurd h

-- A string at a position, at every depth but zero.
pub next_string_within :
    (s : Str) (enc : Bytes)
    → ((depth : ℕ) (bytes : Bytes) (pos : ℕ) (rest : Bytes)
        → drop pos bytes ≡ enc ++ rest
        → next_string (read_value bytes (suc depth)) bytes pos ≡ ok (s, pos + length enc))
    → (depth : ℕ) (bytes : Bytes) (pos : ℕ) (rest : Bytes) → 1 ≤ depth
    → drop pos bytes ≡ enc ++ rest
    → next_string (read_value bytes depth) bytes pos ≡ ok (s, pos + length enc)
next_string_within s enc reads zero bytes pos rest h here = absurd (omega arith)
next_string_within s enc reads (suc depth) bytes pos rest h here = reads depth bytes pos rest here

pub record WrittenAttrs (attrs : Attrs) : Type 0 where
  pub enc : Bytes
  pub written : write_attrs attrs ≡ ok enc
  pub reads :
      (depth : ℕ) (bytes : Bytes) (pos : ℕ) (rest : Bytes) (out : Attrs)
      → length enc ≤ depth
      → drop pos bytes ≡ enc ++ rest
      → read_attrs (read_value bytes depth) bytes (count_attrs attrs) out pos
        ≡ ok (collect_attrs attrs out, pos + length enc)

read_attrs_step :
    (read : Bool → ℕ → ℕ → Outcome (Value × ℕ)) (bytes : Bytes) (n : ℕ) (out : Attrs)
    (pos pos1 pos2 : ℕ) (k : Str) (v : Value)
    → next_string read bytes pos ≡ ok (k, pos1)
    → next_value read bytes true pos1 ≡ ok (v, pos2)
    → read_attrs read bytes (suc n) out pos ≡ read_attrs read bytes n (set_attr k v out) pos2
unfolding read_attrs
read_attrs_step read bytes n out pos pos1 pos2 k v key value = rw (key, read_attrs) (rw value refl)

-- One more attribute in front.
kept_attr :
    (k : Str) (v : Value) (attrs : Attrs)
    → is_skipped v ≡ false
    → IsWritable k
    → WrittenValue v true (wire_attr v)
    → WrittenAttrs attrs
    → WrittenAttrs (attr k v attrs)
kept_attr k v attrs e hk w more =
    let (key, key_ok, filled, reads_key) = next_string-write_string k hk in
    let tail = w.enc ++ more.enc in
    record {
      enc = key ++ tail;
      written = unfold write_attrs in rw (e, w.written, more.written) (rw key_ok refl);
      reads = λ depth bytes pos rest out enough here.
          let size = length-append key tail in
          let size' = length-append w.enc more.enc in
          let h0 : drop pos bytes ≡ key ++ (w.enc ++ (more.enc ++ rest)) =
            here
            ∙ append_assoc key tail rest
            ∙ ap (λ t. key ++ t) (append_assoc w.enc more.enc rest) in
          let pos1 = pos + length key in
          let h1 = drop_past pos bytes key (w.enc ++ (more.enc ++ rest)) h0 in
          let h2 = drop_past pos1 bytes w.enc (more.enc ++ rest) h1 in
          let count : count_attrs (attr k v attrs) ≡ suc (count_attrs attrs) =
            unfold count_attrs in ground (arith, e) in
          let collected : collect_attrs attrs (set_attr k (wire_attr v) out)
              ≡ collect_attrs (attr k v attrs) out =
            unfold collect_attrs in ground (arith, e) in
          let far : pos1 + length w.enc + length more.enc ≡ pos + length (key ++ tail) =
            omega (arith, size, size') in
          ap (λ (n : ℕ). read_attrs (read_value bytes depth) bytes n out pos) count
          ∙ read_attrs_step (read_value bytes depth) bytes (count_attrs attrs) out pos pos1
              (pos1 + length w.enc) k (wire_attr v)
              (next_string_within k key reads_key depth bytes pos (w.enc ++ (more.enc ++ rest))
                (omega (arith, size, filled)) h0)
              (w.reads depth (omega (arith, size, size')) bytes pos1 (more.enc ++ rest) h1)
          ∙ more.reads depth bytes (pos1 + length w.enc) rest (set_attr k (wire_attr v) out)
              (omega (arith, size, size')) h2
          ∙ rw (collected, far) refl;
    }

skipped_attr :
    (k : Str) (v : Value) (attrs : Attrs)
    → is_skipped v ≡ true
    → WrittenAttrs attrs
    → WrittenAttrs (attr k v attrs)
skipped_attr k v attrs e more = record {
  enc = more.enc;
  written = unfold write_attrs in rw e more.written;
  reads = λ depth bytes pos rest out enough here.
      let count : count_attrs (attr k v attrs) ≡ count_attrs attrs =
        unfold count_attrs in ground (arith, e) in
      let collected : collect_attrs attrs out ≡ collect_attrs (attr k v attrs) out =
        unfold collect_attrs in ground (arith, e) in
      ap (λ (n : ℕ). read_attrs (read_value bytes depth) bytes n out pos) count
      ∙ more.reads depth bytes pos rest out enough here
      ∙ rw collected refl;
}

-- The attributes are written, and read back as the dict of those that are not skipped.
pub written_attrs : (attrs : Attrs) → IsWritableAttrs attrs → WrittenAttrs attrs
written_attrs no_attrs h = record {
  enc = [];
  written = unfold write_attrs in refl;
  reads = λ depth bytes pos rest out enough here.
      unfold read_attrs count_attrs collect_attrs in ap (λ (p : ℕ). ok (out, p)) (omega arith);
}
written_attrs (attr k v attrs) (hk, hv, h) = elim (Bool-cases (is_skipped v)) [
  | inl e ↦ skipped_attr k v attrs e (written_attrs attrs h)
  | inr e ↦ kept_attr k v attrs e hk (attr_value v hv e) (written_attrs attrs h)
]
