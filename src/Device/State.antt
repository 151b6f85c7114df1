-- ===== src/Device/State.antt =====
-- The state of wa/store.py.
use whatsapp_cli.Common.{ℕ, Bool, not, ◌&&◌, List}
use whatsapp_cli.Common.Lists.{is_empty}
use whatsapp_cli.Noise.Handshake.{KeyPair}
use whatsapp_cli.Common.Utf8.{Bytes, Str}

pub record SignedPreKey : Type 0 where
  pub key_id : ℕ
  pub priv : Bytes
  pub pub_key : Bytes
  pub signature : Bytes

pub record OneTimePrekey : Type 0 where
  pub key_id : ℕ
  pub priv : Bytes
  pub pub_key : Bytes

pub record Device : Type 0 where
  pub noise_key : KeyPair
  pub identity_key : KeyPair
  pub signed_pre_key : SignedPreKey
  pub registration_id : ℕ
  pub adv_secret : Bytes
  pub own_jid : Str
  pub lid : Str
  pub platform : Str
  pub business_name : Str
  pub account : Bytes
  pub push_name : Str
  pub prekeys_uploaded : Bool
  pub next_prekey_id : ℕ
  pub one_time_prekeys : List OneTimePrekey

unfoldable pub is_paired : Device → Bool
is_paired d = not (is_empty d.own_jid) && not (is_empty d.account)
