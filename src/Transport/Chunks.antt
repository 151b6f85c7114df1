-- ===== src/Transport/Chunks.antt =====
-- How a stream is cut into chunks does not matter to `FrameParser`.
use whatsapp_cli.Common.{
  ℕ, zero, suc, ◌+◌, ◌≤◌, ◌<◌, ◌≡◌, refl, sym, ap, ap₂, ◌∙◌, Option, none, some, List, [], ◌∷◌,
  ◌++◌, arith, append_assoc, append-nil,
}
use whatsapp_cli.Common.Lists.{
  length, length-append, length-drop, slice-append_within, drop-append_within, slice, drop,
}
use whatsapp_cli.Common.Outcome.{Outcome, ok, raise, ◌>>=◌, value_error}
use whatsapp_cli.Common.Utf8.{Bytes}
use whatsapp_cli.Transport.Framing.{prefix_length, parse_loop, feed, frame_max_size}
use native.Mathlib.Decide.{dec_lt}

-- What one round of the loop finds in the buffer.
pub data Round (buf : Bytes) : Type 0 where
  short_prefix : prefix_length buf ≡ none → Round buf
  too_large : (n : ℕ) → prefix_length buf ≡ some n → frame_max_size < n → Round buf
  short_frame :
      (n : ℕ) → prefix_length buf ≡ some n → n ≤ frame_max_size → length buf < 3 + n → Round buf
  complete :
      (n : ℕ) → prefix_length buf ≡ some n → n ≤ frame_max_size → 3 + n ≤ length buf → Round buf

pub inspect : (buf : Bytes) → Round buf
inspect buf = go (prefix_length buf) refl
  where
    go : (o : Option ℕ) → prefix_length buf ≡ o → Round buf
    go none e = short_prefix e
    go (some n) e = elim (dec_lt frame_max_size n) [
      | yes large ↦ too_large n e large
      | no fits ↦ elim (dec_lt (length buf) (3 + n)) [
        | yes missing ↦ short_frame n e (omega arith) missing
        | no there ↦ complete n e (omega arith) (omega arith)
      ]
    ]

module _ (rounds : ℕ) (buf : Bytes) (frames : List Bytes) where
  pub wait_for_prefix :
      prefix_length buf ≡ none → parse_loop (suc rounds) buf frames ≡ ok (frames, buf)
  unfolding parse_loop
  wait_for_prefix e = rw (e, parse_loop)

  module _ (n : ℕ) (e : prefix_length buf ≡ some n) where
    pub refuse : frame_max_size < n → parse_loop (suc rounds) buf frames ≡ raise value_error
    unfolding parse_loop
    refuse h = rw (e, parse_loop) (ground arith)

    pub wait_for_frame :
        n ≤ frame_max_size
        → length buf < 3 + n
        → parse_loop (suc rounds) buf frames ≡ ok (frames, buf)
    unfolding parse_loop
    wait_for_frame h missing = rw (e, parse_loop) (ground arith)

    pub take_frame :
        n ≤ frame_max_size
        → 3 + n ≤ length buf
        → parse_loop (suc rounds) buf frames
          ≡ parse_loop rounds (drop (3 + n) buf) (frames ++ (slice buf 3 (3 + n) ∷ []))
    unfolding parse_loop
    take_frame h there = rw (e, parse_loop) (ground arith)

-- Enough rounds all give one result.
parse_loop_stable :
    (r r' : ℕ) (buf : Bytes) (frames : List Bytes)
    → length buf < r
    → length buf < r'
    → parse_loop r buf frames ≡ parse_loop r' buf frames
parse_loop_stable zero r' buf frames h h' = absurd (omega arith)
parse_loop_stable (suc r) zero buf frames h h' = absurd (omega arith)
parse_loop_stable (suc r) (suc r') buf frames h h' = elim (inspect buf) [
  | short_prefix e ↦ wait_for_prefix r buf frames e ∙ sym (wait_for_prefix r' buf frames e)
  | too_large n e p ↦ refuse r buf frames n e p ∙ sym (refuse r' buf frames n e p)
  | short_frame n e p q ↦
      wait_for_frame r buf frames n e p q ∙ sym (wait_for_frame r' buf frames n e p q)
  | complete n e p q ↦
      let shorter = length-drop (3 + n) buf in
      take_frame r buf frames n e p q
      ∙ parse_loop_stable r r' (drop (3 + n) buf) (frames ++ (slice buf 3 (3 + n) ∷ []))
          (omega arith) (omega arith)
      ∙ sym (take_frame r' buf frames n e p q)
]

prefix_length-append :
    (buf more : Bytes) {n : ℕ} → prefix_length buf ≡ some n → prefix_length (buf ++ more) ≡ some n
unfolding prefix_length
prefix_length-append [] more h = cc
prefix_length-append (a ∷ []) more h = cc
prefix_length-append (a ∷ b ∷ []) more h = cc
prefix_length-append (a ∷ b ∷ c ∷ buf) more h = h

-- What the rest of a stream does, from the state that its beginning left.
abbrev go_on : Bytes → Outcome (List Bytes × Bytes) → Outcome (List Bytes × Bytes)
go_on more (ok (frames, rest)) = parse_loop (length (rest ++ more) + 1) (rest ++ more) frames
go_on more (raise e) = raise e

parse_loop-append :
    (r r' : ℕ) (buf more : Bytes) (frames : List Bytes)
    → length buf < r
    → length (buf ++ more) < r'
    → parse_loop r' (buf ++ more) frames ≡ go_on more (parse_loop r buf frames)
parse_loop-append zero r' buf more frames h h' = absurd (omega arith)
parse_loop-append (suc r) zero buf more frames h h' = absurd (omega arith)
parse_loop-append (suc r) (suc r') buf more frames h h' = elim (inspect buf) [
  | short_prefix e ↦
      rw (wait_for_prefix r buf frames e)
        (parse_loop_stable (suc r') _ (buf ++ more) frames h' (omega arith))
  | too_large n e p ↦
      rw (refuse r buf frames n e p)
        (refuse r' (buf ++ more) frames n (prefix_length-append buf more e) p)
  | short_frame n e p q ↦
      rw (wait_for_frame r buf frames n e p q)
        (parse_loop_stable (suc r') _ (buf ++ more) frames h' (omega arith))
  | complete n e p q ↦
      let frames' = frames ++ (slice buf 3 (3 + n) ∷ []) in
      let same = slice-append_within 3 (3 + n) buf more (omega arith) q in
      let rest = drop-append_within (3 + n) buf more q in
      let shorter = length-drop (3 + n) buf in
      let len = length-append buf more in
      let len' = length-append (drop (3 + n) buf) more in
      rw (take_frame r buf frames n e p q) (
        take_frame r' (buf ++ more) frames n (prefix_length-append buf more e) p (omega arith)
        ∙ ap₂ (λ (b : Bytes) (f : Bytes). parse_loop r' b (frames ++ (f ∷ []))) rest same
        ∙ parse_loop-append r r' (drop (3 + n) buf) more frames' (omega arith) (omega arith))
]

abbrev pub after : List Bytes → Outcome (List Bytes × Bytes) → Outcome (List Bytes × Bytes)
after fs (ok (gs, rest)) = ok (fs ++ gs, rest)
after fs (raise e) = raise e

-- The frames found before only stand in front.
pub parse_loop-after :
    (r : ℕ) (buf : Bytes) (fs gs : List Bytes)
    → parse_loop r buf (fs ++ gs) ≡ after fs (parse_loop r buf gs)
parse_loop-after zero buf fs gs = unfold parse_loop in refl
parse_loop-after (suc r) buf fs gs = elim (inspect buf) [
  | short_prefix e ↦ rw (wait_for_prefix r buf gs e) (wait_for_prefix r buf (fs ++ gs) e)
  | too_large n e p ↦ rw (refuse r buf gs n e p) (refuse r buf (fs ++ gs) n e p)
  | short_frame n e p q ↦
      rw (wait_for_frame r buf gs n e p q) (wait_for_frame r buf (fs ++ gs) n e p q)
  | complete n e p q ↦
      let frame = slice buf 3 (3 + n) ∷ [] in
      rw (take_frame r buf gs n e p q) (
        take_frame r buf (fs ++ gs) n e p q
        ∙ ap (parse_loop r (drop (3 + n) buf)) (append_assoc fs gs frame)
        ∙ parse_loop-after r (drop (3 + n) buf) fs (gs ++ frame))
]

-- Two chunks fed one after the other.
unfoldable pub feed_two : Bytes → Bytes → Bytes → Outcome (List Bytes × Bytes)
feed_two buf chunk chunk' = do
  (fs, rest) ← feed buf chunk
  (gs, rest') ← feed rest chunk'
  ok (fs ++ gs, rest')

go_on-after :
    (more : Bytes) (o : Outcome (List Bytes × Bytes))
    → go_on more o ≡ (o >>= λ p. feed p.1 more >>= λ q. ok (p.0 ++ q.0, q.1))
unfolding feed
go_on-after more (raise e) = refl
go_on-after more (ok (fs, rest)) =
    ap (parse_loop (length (rest ++ more) + 1) (rest ++ more)) (sym (append-nil fs))
    ∙ parse_loop-after (length (rest ++ more) + 1) (rest ++ more) fs []
    ∙ step (parse_loop (length (rest ++ more) + 1) (rest ++ more) [])
  where
    step : (o : Outcome (List Bytes × Bytes)) → after fs o ≡ (o >>= λ q. ok (fs ++ q.0, q.1))
    step (ok q) = refl
    step (raise e) = refl

-- Feeding a chunk and then another gives the frames, the buffer and the error that feeding both as
-- one chunk gives, from every buffer.
pub feed-append :
    (buf chunk chunk' : Bytes) → feed buf (chunk ++ chunk') ≡ feed_two buf chunk chunk'
unfolding feed feed_two
feed-append buf chunk chunk' =
    ap (λ (b : Bytes). parse_loop (length b + 1) b []) (sym (append_assoc buf chunk chunk'))
    ∙ parse_loop-append (length (buf ++ chunk) + 1) (length ((buf ++ chunk) ++ chunk') + 1)
        (buf ++ chunk) chunk' [] (omega arith) (omega arith)
    ∙ go_on-after chunk' (parse_loop (length (buf ++ chunk) + 1) (buf ++ chunk) [])
