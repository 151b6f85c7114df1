-- ===== src/Transport/Frames.antt =====
-- What the parser makes of frames that `encode_frame` wrote, and why it never refuses a length.
use whatsapp_cli.Common.{
  ℕ, zero, suc, ◌+◌, ◌-◌, ◌*◌, ◌/◌, ◌%◌, ◌^◌, ◌≤◌, ◌<◌, bit_or, ◌≡◌, refl, sym, ap, ap₂, ◌∙◌, some,
  List, [], ◌∷◌, ◌++◌, arith, append_assoc, append-nil,
}
use whatsapp_cli.Common.Lists.{
  length, length-append, length-drop, slice, drop, take, take-append, drop-append, All,
}
use whatsapp_cli.Common.Bits.{shifted_bit_or}
use whatsapp_cli.Common.Outcome.{ok, raise, value_error}
use whatsapp_cli.Common.Utf8.{Bytes, IsBytes}
use whatsapp_cli.Transport.Framing.{prefix_length, parse_loop, feed, frame_max_size, encode_frame}
use whatsapp_cli.Transport.Chunks.{
  short_prefix, too_large, short_frame, complete, inspect, take_frame, wait_for_prefix,
  wait_for_frame,
}

abbrev pub framed : Bytes → Bytes
framed p = let n = length p in (n / 2 ^ 16 % 256) ∷ (n / 2 ^ 8 % 256) ∷ (n % 256) ∷ p

pub encode_frame_ok : (p : Bytes) → length p < frame_max_size → encode_frame p ≡ ok (framed p)
unfolding encode_frame
encode_frame_ok p h = ground arith

-- Exactly the payloads below 2 ^ 24 bytes can be framed.
pub encode_frame_large :
    (p : Bytes) → frame_max_size ≤ length p → encode_frame p ≡ raise value_error
unfolding encode_frame
encode_frame_large p h = ground arith

prefix_value :
    (a b c : ℕ)
    → b < 256
    → c < 256
    → bit_or (bit_or (a * 2 ^ 16) (b * 2 ^ 8)) c ≡ a * 2 ^ 16 + b * 2 ^ 8 + c
prefix_value a b c hb hc =
    let e : a * 2 ^ 16 + b * 2 ^ 8 ≡ (a * 2 ^ 8 + b) * 2 ^ 8 = omega arith in
    ap (λ t. bit_or t c) (shifted_bit_or 16 a (b * 2 ^ 8) (omega arith) ∙ e)
    ∙ shifted_bit_or 8 (a * 2 ^ 8 + b) c hc
    ∙ omega arith

prefix_length-framed :
    (p rest : Bytes)
    → length p < frame_max_size
    → prefix_length (framed p ++ rest) ≡ some (length p)
unfolding prefix_length
prefix_length-framed p rest h =
    let n = length p in
    ap some (
      prefix_value (n / 2 ^ 16 % 256) (n / 2 ^ 8 % 256) (n % 256) (omega arith) (omega arith)
      ∙ omega arith)

pub parse_loop-framed :
    (rounds : ℕ) (p rest : Bytes) (frames : List Bytes)
    → length p < frame_max_size
    → parse_loop (suc rounds) (framed p ++ rest) frames
      ≡ parse_loop rounds rest (frames ++ (p ∷ []))
parse_loop-framed rounds p rest frames h =
    let n = length p in
    let e : 3 + n - 3 ≡ n = omega arith in
    let frame : slice (framed p ++ rest) 3 (3 + n) ≡ p =
      ap (λ k. take k (p ++ rest)) e ∙ take-append p rest in
    let behind : drop (3 + n) (framed p ++ rest) ≡ rest =
      ap (λ k. drop k (framed p ++ rest)) three ∙ drop-append p rest in
    take_frame rounds (framed p ++ rest) frames n (prefix_length-framed p rest h) (omega arith)
      (omega (arith, length-append p rest))
    ∙ ap₂ (λ (b : Bytes) (f : Bytes). parse_loop rounds b (frames ++ (f ∷ []))) behind frame
  where
    three : 3 + length p ≡ suc (suc (suc (length p)))
    three = omega arith

prefix_length_bound :
    (buf : Bytes) (n : ℕ) → IsBytes buf → prefix_length buf ≡ some n → n < frame_max_size
unfolding prefix_length
prefix_length_bound [] n h e = cc
prefix_length_bound (a ∷ []) n h e = cc
prefix_length_bound (a ∷ b ∷ []) n h e = cc
prefix_length_bound (a ∷ b ∷ c ∷ buf) n (ha, (hb, (hc, h))) e =
    ground (arith, prefix_value a b c hb hc)

IsBytes-drop : (n : ℕ) (buf : Bytes) → IsBytes buf → IsBytes (drop n buf)
IsBytes-drop zero buf h = h
IsBytes-drop (suc n) [] h = tt
IsBytes-drop (suc n) (b ∷ buf) (hb, h) = IsBytes-drop n buf h

parse_loop_returns :
    (rounds : ℕ) (buf : Bytes) (frames : List Bytes)
    → IsBytes buf
    → length buf < rounds
    → (p : List Bytes × Bytes) × (parse_loop rounds buf frames ≡ ok p)
parse_loop_returns zero buf frames h enough = absurd (omega arith)
parse_loop_returns (suc rounds) buf frames h enough = elim (inspect buf) [
  | short_prefix e ↦ ((frames, buf), wait_for_prefix rounds buf frames e)
  | too_large n e p ↦ absurd (omega (arith, prefix_length_bound buf n h e))
  | short_frame n e p q ↦ ((frames, buf), wait_for_frame rounds buf frames n e p q)
  | complete n e p q ↦
      let shorter = length-drop (3 + n) buf in
      let (result, found) =
        parse_loop_returns rounds (drop (3 + n) buf) (frames ++ (slice buf 3 (3 + n) ∷ []))
          (IsBytes-drop (3 + n) buf h) (omega arith) in
      (result, take_frame rounds buf frames n e p q ∙ found)
]

IsBytes-append : (xs ys : Bytes) → IsBytes xs → IsBytes ys → IsBytes (xs ++ ys)
IsBytes-append [] ys h k = k
IsBytes-append (x ∷ xs) ys (hx, h) k = (hx, IsBytes-append xs ys h k)

-- `feed` returns on every chunk and every buffer of bytes: its test for a frame that is too large
-- can never hold of a three-byte length, and the loop ends.
pub feed_returns :
    (buf chunk : Bytes)
    → IsBytes buf
    → IsBytes chunk
    → (p : List Bytes × Bytes) × (feed buf chunk ≡ ok p)
unfolding feed
feed_returns buf chunk h k =
    parse_loop_returns (length (buf ++ chunk) + 1) (buf ++ chunk) [] (IsBytes-append buf chunk h k)
      (omega arith)

-- The frames of some payloads, back to back.
unfoldable pub framed_all : List Bytes → Bytes
framed_all [] = []
framed_all (p ∷ ps) = framed p ++ framed_all ps

abbrev pub Fits : Bytes → Type 0
Fits p = length p < frame_max_size

length-framed_all_rest :
    (p : Bytes) (ps : List Bytes) → length (framed_all ps) < length (framed_all (p ∷ ps))
unfolding framed_all
length-framed_all_rest p ps = omega (arith, length-append p (framed_all ps))

parse_loop-framed_all :
    (ps : List Bytes) (rounds : ℕ) (frames : List Bytes)
    → All Fits ps
    → length (framed_all ps) < rounds
    → parse_loop rounds (framed_all ps) frames ≡ ok (frames ++ ps, [])
parse_loop-framed_all ps zero frames h enough = absurd (omega arith)
parse_loop-framed_all [] (suc rounds) frames h enough =
    unfold framed_all prefix_length in
    wait_for_prefix rounds [] frames refl ∙ ap (λ t. ok (t, [])) (sym (append-nil frames))
parse_loop-framed_all (p ∷ ps) (suc rounds) frames (hp, h) enough =
    unfold_first p ps rounds frames hp
    ∙ parse_loop-framed_all ps rounds (frames ++ (p ∷ [])) h
        (omega (arith, length-framed_all_rest p ps))
    ∙ ap (λ t. ok (t, [])) (append_assoc frames (p ∷ []) ps)
  where
    unfold_first :
        (p : Bytes) (ps : List Bytes) (rounds : ℕ) (frames : List Bytes)
        → Fits p
        → parse_loop (suc rounds) (framed_all (p ∷ ps)) frames
          ≡ parse_loop rounds (framed_all ps) (frames ++ (p ∷ []))
    unfold_first p ps rounds frames hp =
        unfold framed_all in parse_loop-framed rounds p (framed_all ps) frames hp

-- The parser gives back, in order, the payloads that were framed, and keeps nothing.
pub feed-framed_all : (ps : List Bytes) → All Fits ps → feed [] (framed_all ps) ≡ ok (ps, [])
unfolding feed
feed-framed_all ps h = parse_loop-framed_all ps _ [] h (omega arith)
