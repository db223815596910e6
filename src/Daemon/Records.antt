-- ===== src/Daemon/Records.antt =====
-- The claims of what the dns, http and node handlers of internal/daemon/server.go record.
use chaosplane.Prelude.{
  ◌≡◌, ◌≢◌, sym, ◌∙◌, String, false, [], ◌∷◌, arith, string_eq, eq_iff, if◌then◌else◌, ℤ, pos,
  negsuc, Dict, insert, text_at, text_at-insert, leb_ℤ,
}
use chaosplane.Prelude.Text.{itoa_ℤ}
use chaosplane.Prelude.Digits.{itoa-nonempty}
use chaosplane.Prelude.Trim.{split_text}
use chaosplane.Daemon.Commands.{or_default, http_abort_rule_body, block_rules}
use chaosplane.Daemon.Host.{PodTarget, dns_rules, domains_of}
use chaosplane.Daemon.Server.{NodeChaosRequest}
use chaosplane.Daemon.Targets.{IsScoped}
use chaosplane.Daemon.Claims.{rule, qdisc, rules}
use chaosplane.Daemon.Outstanding.{claims_of}

pub dns_claims-scoped :
    (t : PodTarget) (params : Dict String)
    → IsScoped t
    → claims_of "dns" (insert "iface" t.host_veth params)
      ≡ rules (
          dns_rules t.host_veth t.scoped
            (domains_of (split_text b',' (text_at "domains" (insert "iface" t.host_veth params)))))
unfolding claims_of
dns_claims-scoped t params e = simp (text_at-insert, e)

pub http_claims-abort :
    (action : String) (t : PodTarget) (port : String) (params : Dict String)
    → action ≡ "abort"
    → IsScoped t
    → port ≢ ""
    → claims_of "http"
        (insert "action" action (insert "port" port (insert "iface" t.host_veth params)))
      ≡ rule (http_abort_rule_body t.host_veth port t.scoped) ∷ []
unfolding claims_of
http_claims-abort action t port params same e n =
    simp (text_at-insert, e, same) (ground (arith, n, eq_iff port ""))

pub http_claims-delay :
    (action : String) (t : PodTarget) (port : String) (params : Dict String)
    → action ≡ "delay"
    → IsScoped t
    → claims_of "http"
        (insert "action" action (insert "port" port (insert "iface" t.host_veth params)))
      ≡ qdisc (if t.scoped then t.host_veth else "lo") ∷ []
unfolding claims_of
http_claims-delay action t port params same e = simp (text_at-insert, e, same)

pub positive-written : (p : ℤ) → leb_ℤ p (pos 0) ≡ false → itoa_ℤ p ≢ ""
positive-written (pos n) b = itoa-nonempty n
positive-written (negsuc n) b = ground (arith, b)

pub no_partition : {action : String} → action ≡ "cpu-stress" → action ≢ "partition"
no_partition {action = action} e f = ground (arith, (eq_iff "cpu-stress" "partition").1 (sym e ∙ f))

-- A node fault is undone in full where the request of a partition names the interface, and no other
-- request does.
abbrev pub IsPaired : NodeChaosRequest → Type 0
IsPaired req =
    (req.action ≡ "partition" → text_at "iface" req.parameters ≢ "")
    × (req.action ≢ "partition" → text_at "iface" req.parameters ≡ "")

pub node_claims-blocked :
    (params : Dict String)
    → text_at "iface" params ≢ ""
    → claims_of "node" params
      ≡ rules (block_rules (or_default (text_at "iface" params) "eth0") "both")
unfolding claims_of
node_claims-blocked params n = ground (arith, n, eq_iff (text_at "iface" params) "")

pub node_claims-stressed :
    (params : Dict String) → text_at "iface" params ≡ "" → claims_of "node" params ≡ []
unfolding claims_of
node_claims-stressed params e = ground (arith, e, eq_iff (text_at "iface" params) "")
