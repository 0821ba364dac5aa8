-- ===== src/Asset.antt =====
-- `AssetInfo` and `Asset` of packages/membrane/src/types.rs, and what packages/membrane/src/helpers.rs
-- does with them. An address is its text.
use membrane_core.Prelude.{ℕ, Bool, false, String, str_eq}

abbrev pub Addr : Type 0
Addr = String

pub data AssetInfo : Type 0 where
  token : Addr → AssetInfo
  native_token : String → AssetInfo

-- `Display`: a token and a native denomination of one spelling print alike.
unfoldable pub to_string : AssetInfo → String
to_string (token address) = address
to_string (native_token denom) = denom

-- `AssetInfo::equal`, and the derived `==`
unfoldable pub equal : AssetInfo → AssetInfo → Bool
equal (token a) (token b) = str_eq a b
equal (token a) (native_token d) = false
equal (native_token d) (token a) = false
equal (native_token d) (native_token e) = str_eq d e

pub record Asset : Type 0 where
  pub info : AssetInfo
  pub amount : ℕ
