-- ===== src/WaBinary/Tokens/Dictionary1.antt =====
-- The dictionary 1 of DOUBLE_BYTE_TOKENS of wa/wabinary/_tokens_data.py.
use whatsapp_cli.Common.{String, List, [], ◌∷◌}

unfoldable pub dictionary_1 : List String
dictionary_1 =
    "reject" ∷ "dirty" ∷ "announcement" ∷ "020" ∷ "13" ∷ "9" ∷ "status_video_max_bitrate"
    ∷ "fb:thrift_iq" ∷ "offline_batch" ∷ "022" ∷ "full" ∷ "ctwa_first_business_reply_logging"
    ∷ "h.264" ∷ "smax_id" ∷ "group_description_length" ∷ "https://www.whatsapp.com/otp/code"
    ∷ "status_image_max_edge" ∷ "smb_upsell_business_profile_enabled" ∷ "021"
    ∷ "web_upgrade_to_md_modal" ∷ "14" ∷ "023" ∷ "s_o" ∷ "smaller_video_thumbs_status_enabled"
    ∷ "media_max_autodownload" ∷ "960" ∷ "blocking_status" ∷ "peer_msg"
    ∷ "joinable_group_call_client_version" ∷ "group_call_video_maximization_enabled"
    ∷ "return_snapshot" ∷ "high" ∷ "America/Mexico_City" ∷ "entry_point_block_logging_enabled"
    ∷ "pop" ∷ "024" ∷ "1050" ∷ "16" ∷ "1380" ∷ "one_tap_calling_in_group_chat_size" ∷ "regular_low"
    ∷ "inline_joinable_education_enabled" ∷ "hq_image_max_edge" ∷ "locked" ∷ "America/Bogota"
    ∷ "smb_biztools_deeplink_enabled" ∷ "status_image_quality" ∷ "1088" ∷ "025"
    ∷ "payments_upi_intent_transaction_limit" ∷ "voip" ∷ "w:g2" ∷ "027" ∷ "md_pin_chat_enabled"
    ∷ "026" ∷ "multi_scan_pjpeg_download_enabled" ∷ "shops_product_grid" ∷ "transaction_id"
    ∷ "ctwa_context_enabled" ∷ "20" ∷ "fna" ∷ "hq_image_quality" ∷ "alt_jpeg_doc_detection_quality"
    ∷ "group_call_max_participants" ∷ "pkey" ∷ "America/Belem" ∷ "image_max_kbytes"
    ∷ "web_cart_v1_1_order_message_changes_enabled" ∷ "ctwa_context_enterprise_enabled"
    ∷ "urn:xmpp:whatsapp:account" ∷ "840" ∷ "Asia/Kuala_Lumpur" ∷ "max_participants"
    ∷ "video_remux_after_repair_enabled" ∷ "stella_addressbook_restriction_type" ∷ "660" ∷ "900"
    ∷ "780" ∷ "context_menu_ios13_enabled" ∷ "mute-state" ∷ "ref" ∷ "payments_request_messages"
    ∷ "029" ∷ "frskmsg" ∷ "vcard_max_size_kb" ∷ "sample_buffer_gif_player_enabled"
    ∷ "match_last_seen" ∷ "510" ∷ "4983" ∷ "video_max_bitrate" ∷ "028" ∷ "w:comms:chat" ∷ "17"
    ∷ "frequently_forwarded_max" ∷ "groups_privacy_blacklist" ∷ "Asia/Karachi" ∷ "02a"
    ∷ "web_download_document_thumb_mms_enabled" ∷ "02b" ∷ "hist_sync" ∷ "biz_block_reasons_version"
    ∷ "1024" ∷ "18" ∷ "web_is_direct_connection_for_plm_transparent" ∷ "view_once_write"
    ∷ "file_max_size" ∷ "paid_convo_id" ∷ "online_privacy_setting" ∷ "video_max_edge"
    ∷ "view_once_read" ∷ "enhanced_storage_management" ∷ "multi_scan_pjpeg_encoding_enabled"
    ∷ "ctwa_context_forward_enabled" ∷ "video_transcode_downgrade_enable"
    ∷ "template_doc_mime_types" ∷ "hq_image_bw_threshold" ∷ "30" ∷ "body"
    ∷ "u_aud_limit_sil_restarts_ctrl" ∷ "other" ∷ "participating" ∷ "w:biz:directory" ∷ "1110"
    ∷ "vp8" ∷ "4018" ∷ "meta" ∷ "doc_detection_image_max_edge" ∷ "image_quality" ∷ "1170" ∷ "02c"
    ∷ "smb_upsell_chat_banner_enabled" ∷ "key_expiry_time_second" ∷ "pid" ∷ "stella_interop_enabled"
    ∷ "19" ∷ "linked_device_max_count" ∷ "md_device_sync_enabled" ∷ "02d" ∷ "02e" ∷ "360"
    ∷ "enhanced_block_enabled" ∷ "ephemeral_icon_in_forwarding" ∷ "paid_convo_status"
    ∷ "gif_provider" ∷ "project_name" ∷ "server-error" ∷ "canonical_url_validation_enabled"
    ∷ "wallpapers_v2" ∷ "syncd_clear_chat_delete_chat_enabled" ∷ "medianotify" ∷ "02f"
    ∷ "shops_required_tos_version" ∷ "vote" ∷ "reset_skey_on_id_change" ∷ "030" ∷ "image_max_edge"
    ∷ "multicast_limit_global" ∷ "ul_bw" ∷ "21" ∷ "25" ∷ "5000" ∷ "poll" ∷ "570" ∷ "22" ∷ "031"
    ∷ "1280" ∷ "WhatsApp" ∷ "032" ∷ "bloks_shops_enabled" ∷ "50" ∷ "upload_host_switching_enabled"
    ∷ "web_ctwa_context_compose_enabled" ∷ "ptt_forwarded_features_enabled" ∷ "unblocked"
    ∷ "partial_pjpeg_enabled" ∷ "fbid:devices" ∷ "height" ∷ "ephemeral_group_query_ts"
    ∷ "group_join_permissions" ∷ "order" ∷ "033" ∷ "alt_jpeg_status_quality" ∷ "migrate"
    ∷ "popular-bank" ∷ "win_uwp_deprecation_killswitch_enabled"
    ∷ "web_download_status_thumb_mms_enabled" ∷ "blocking" ∷ "url_text" ∷ "035"
    ∷ "web_forwarding_limit_to_groups" ∷ "1600" ∷ "val" ∷ "1000" ∷ "syncd_msg_date_enabled"
    ∷ "bank-ref-id" ∷ "max_subject" ∷ "payments_web_enabled"
    ∷ "web_upload_document_thumb_mms_enabled" ∷ "size" ∷ "request" ∷ "ephemeral" ∷ "24"
    ∷ "receipt_agg" ∷ "ptt_remember_play_position" ∷ "sampling_weight" ∷ "enc_rekey" ∷ "mute_always"
    ∷ "037" ∷ "034" ∷ "23" ∷ "036" ∷ "action" ∷ "click_to_chat_qr_enabled" ∷ "width" ∷ "disabled"
    ∷ "038" ∷ "md_blocklist_v2" ∷ "played_self_enabled" ∷ "web_buttons_message_enabled" ∷ "flow_id"
    ∷ "clear" ∷ "450" ∷ "fbid:thread" ∷ "bloks_session_state" ∷ "America/Lima"
    ∷ "attachment_picker_refresh" ∷ "download_host_switching_enabled" ∷ "1792"
    ∷ "u_aud_limit_sil_restarts_test2" ∷ "custom_urls" ∷ "device_fanout" ∷ "optimistic_upload"
    ∷ "2000" ∷ "key_cipher_suite" ∷ "web_smb_upsell_in_biz_profile_enabled" ∷ "e" ∷ "039"
    ∷ "siri_post_status_shortcut" ∷ "pair-device" ∷ "lg" ∷ "lc" ∷ "stream_attribution_url" ∷ "model"
    ∷ "mspjpeg_phash_gen" ∷ "catalog_send_all" ∷ "new_multi_vcards_ui" ∷ "share_biz_vcard_enabled"
    ∷ "-" ∷ "clean" ∷ "200" ∷ "md_blocklist_v2_server" ∷ "03b" ∷ "03a"
    ∷ "web_md_migration_experience" ∷ "ptt_conversation_waveform" ∷ "u_aud_limit_sil_restarts_test1"
    ∷ []
