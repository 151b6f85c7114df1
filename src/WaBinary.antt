-- ===== src/WaBinary.antt =====
-- wa/wabinary: the binary XML codec.
pub mod Tokens
pub mod Node
pub mod Packed
pub mod Packing
pub mod Encoder
pub mod Decoder
pub mod Binary
pub mod Strings
pub mod Jids
pub mod JidForms
pub mod JidText
pub mod Decimals
pub mod JidParse
pub mod Attributes
pub mod WireForm
pub mod NodeParts
pub mod Nodes
pub mod Codec
pub mod Depth
pub mod Termination
