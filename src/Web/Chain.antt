-- ===== src/Web/Chain.antt =====
-- Which entry of the chain is the client.
use wg_access_server.Prelude.{
  false, ◌≡◌, refl, ap, ◌∙◌, none, some, List, [], ◌∷◌, ◌++◌, All, arith, if◌then◌else◌,
}
use wg_access_server.Prelude.Text.{Text}
use wg_access_server.Netip.{Addr, Prefix, unmap}
use wg_access_server.Web.{
  Reading, Request, is_trusted, addr_of, unless_trusted, last_untrusted, from_proxy, forwarded_for,
  client_addr,
}

module _ (x : Reading) (nets : List Prefix) where
  -- An entry that a trusted proxy is named by, or that is no address.
  abbrev pub IsPassed : Text → Type 0
  IsPassed e = unless_trusted x nets (addr_of x e) ≡ none

  last_untrusted-passed :
      (proxies : List Text) → All IsPassed proxies → last_untrusted x nets proxies ≡ none
  unfolding last_untrusted
  last_untrusted-passed [] all = refl
  last_untrusted-passed (e ∷ es) (passed, all) =
      ground (arith, last_untrusted-passed es all, passed)

  last_untrusted-client :
      (before : List Text) (client : Text) (proxies : List Text) (a : Addr)
      → All IsPassed proxies
      → addr_of x client ≡ some a
      → is_trusted nets a ≡ false
      → last_untrusted x nets (before ++ client ∷ proxies) ≡ some a
  unfolding last_untrusted
  last_untrusted-client [] client proxies a all read untrusted =
      ground (arith, last_untrusted-passed proxies all, read, untrusted)
  last_untrusted-client (e ∷ before) client proxies a all read untrusted =
      ground (arith, last_untrusted-client before client proxies a all read untrusted)

  -- Where the chain has, from some entry on, the address of the client, which is not trusted, and then
  -- only entries of trusted proxies or entries that are no addresses: a request that comes from a
  -- trusted proxy is reported to come from the client, whatever the entries before it and X-Real-Ip
  -- say, and a request that does not is left alone.
  pub client_addr-chain :
      (r : Request) (before : List Text) (client : Text) (proxies : List Text) (a : Addr)
      → forwarded_for r.forwarded ≡ before ++ client ∷ proxies
      → All IsPassed proxies
      → addr_of x client ≡ some a
      → is_trusted nets a ≡ false
      → client_addr x nets r ≡ (
          if from_proxy x nets (addr_of x r.remote_addr)
          then some (x.codec.print_addr (unmap a))
          else none)
  unfolding client_addr
  client_addr-chain r before client proxies a chain all read untrusted =
      let found : last_untrusted x nets (forwarded_for r.forwarded) ≡ some a =
        ap (last_untrusted x nets) chain
        ∙ last_untrusted-client before client proxies a all read untrusted in
      ground (arith, found)
