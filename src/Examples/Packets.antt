-- ===== src/Examples/Packets.antt =====
-- Packets through the rules of the firewall, and delays of a sign-in.
use wg_access_server.Prelude.{ℕ, ◌+◌, ◌*◌, ◌^◌, true, not, ◌&&◌, ◌≡◌, refl, [], ◌∷◌, nat_eq}
use wg_access_server.Prelude.Text.{codes}
use wg_access_server.Netip.{Addr, v4, Prefix, contains, contains_addr}
use Prim.Native.Nat.{min}
use wg_access_server.Authnz.Throttle.{throttle_base, throttle_max, delay_of}
use wg_access_server.Authnz.Throttle.Delay.{delay_of-min}
use wg_access_server.Network.Nftables.{FamilyPolicy, forward_rules}
use wg_access_server.Network.Nftables.Verdict.{verdict, may_send, verdict-forward_rules}

-- 10.44.0.0/24, and addresses in it
abbrev vpn : Prefix
vpn = record { addr = v4 170655744; bits = 24 }

abbrev client : ℕ → Addr
client n = v4 (170655744 + n)

-- 192.168.5.0/24
abbrev lan : Prefix
lan = record { addr = v4 3232236800; bits = 24 }

abbrev everywhere : Prefix
everywhere = record { addr = v4 0; bits = 0 }

abbrev staff : FamilyPolicy
staff = record { name = codes "staff"; networks = lan ∷ []; members = client 2 ∷ [] }

of_vpn : contains vpn (client 2) ≡ true
unfolding contains contains_addr
of_vpn = refl

-- A member of a policy sends to an address that is allowed to everybody else.
verdict-forward_rules_example :
    verdict
      (forward_rules true true vpn (client 1 ∷ []) (staff ∷ []) (everywhere ∷ []))
      (client 2)
      (v4 134744072)
    ≡ (not (true && contains vpn (v4 134744072))
        && may_send
            (client 2)
            (v4 134744072)
            true
            vpn
            (client 1 ∷ [])
            (staff ∷ [])
            (everywhere ∷ []))
verdict-forward_rules_example =
    verdict-forward_rules (client 2) (v4 134744072) true true vpn (client 1 ∷ []) (staff ∷ [])
      (everywhere ∷ []) of_vpn

delay_of-min_example :
    (delay_of 0 ≡ 0) × (delay_of (3 + 1) ≡ min (throttle_base * 2 ^ 3) throttle_max)
delay_of-min_example = delay_of-min 3
