-- ===== src/Protobuf/Writer.antt =====
-- wa/peerreq.py: the hand-written protobuf encoder, and the on-demand history request built with it.
-- `x & (2 ^ k - 1)` is `x % 2 ^ k`, and `x >> k` is `x / 2 ^ k`.
use whatsapp_cli.Common.{ℕ, zero, suc, ◌+◌, ◌*◌, ◌/◌, ◌%◌, ◌^◌, bit_or, Bool, [], ◌∷◌, ◌++◌}
use whatsapp_cli.Common.Tests.{leb, if◌then◌else◌}
use whatsapp_cli.Common.Lists.{length, replicate}
use whatsapp_cli.Common.Utf8.{Bytes, Str, utf8_encode}

-- The loop that writes seven bits a round while `n >= 0x80`. The 64-bit mask leaves at most ten
-- groups, so nine rounds reach the last one.
unfoldable pub varint_loop : ℕ → ℕ → Bytes
varint_loop zero n = n % 128 ∷ []
varint_loop (suc rounds) n =
    let more = varint_loop rounds (n / 128) in
    if leb 0x80 n then bit_or (n % 128) 0x80 ∷ more else n % 128 ∷ []

unfoldable pub varint : ℕ → Bytes
unfolding varint_loop
varint n = varint_loop 9 (n % 2 ^ 64)

unfoldable pub tag : ℕ → ℕ → Bytes
tag field_num wire = varint (bit_or (field_num * 2 ^ 3) wire)

unfoldable pub length_delim : ℕ → Bytes → Bytes
length_delim field_num body = tag field_num 2 ++ (varint (length body) ++ body)

unfoldable pub string_field : ℕ → Str → Bytes
string_field field_num s = length_delim field_num (utf8_encode s)

unfoldable pub varint_field : ℕ → ℕ → Bytes
varint_field field_num n = tag field_num 0 ++ varint n

unfoldable pub build_history_sync_on_demand : Str → Str → ℕ → Bool → ℕ → Bytes
build_history_sync_on_demand chat_jid oldest_msg_id oldest_ts oldest_from_me count =
    string_field 1 chat_jid
    ++ (string_field 2 oldest_msg_id
        ++ (varint_field 3 (if oldest_from_me then 1 else 0)
            ++ (varint_field 4 count ++ varint_field 5 oldest_ts)))

unfoldable pub build_peer_data_request : Str → Str → ℕ → Bool → ℕ → Bytes
build_peer_data_request chat_jid oldest_msg_id oldest_ts oldest_from_me count =
    let hsod = build_history_sync_on_demand chat_jid oldest_msg_id oldest_ts oldest_from_me count in
    let pdor = varint_field 1 3 ++ length_delim 4 hsod in
    let pm = varint_field 2 16 ++ length_delim 16 pdor in length_delim 12 pm

-- `pad_for_signal`, with the number that `secrets.randbelow(15)` returns as an argument.
unfoldable pub pad_for_signal : ℕ → Bytes → Bytes
pad_for_signal random plaintext = let pad_len = random + 1 in plaintext ++ replicate pad_len pad_len
