-- ===== src/Netip/Codec.antt =====
-- The text forms of net/netip as an interface: the functions, and what is documented of them.
use wg_access_server.Prelude.{◌≡◌, Option, some}
use wg_access_server.Prelude.Text.{Text}
use wg_access_server.Prelude.Text.Lists.{IsEntry}
use wg_access_server.Netip.{Addr, Prefix, AddrIsValid, IsValid}

pub record Codec : Type 0 where
  pub parse_addr : Text → Option Addr
  pub parse_prefix : Text → Option Prefix
  pub print_addr : Addr → Text
  pub print_prefix : Prefix → Text

pub record IsCodec (c : Codec) : Type 0 where
  -- `ParsePrefix` reads what `Prefix.String` writes
  pub parse-print : (p : Prefix) → IsValid p → c.parse_prefix (c.print_prefix p) ≡ some p
  -- what `Prefix.String` writes holds neither commas nor white space at its ends
  pub print-IsEntry : (p : Prefix) → IsValid p → IsEntry 44 (c.print_prefix p)
  -- what is read is in range
  pub parse_prefix-IsValid : (t : Text) (p : Prefix) → c.parse_prefix t ≡ some p → IsValid p
  pub parse_addr-IsValid : (t : Text) (a : Addr) → c.parse_addr t ≡ some a → AddrIsValid a
