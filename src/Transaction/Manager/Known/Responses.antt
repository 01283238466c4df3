-- ===== src/Transaction/Manager/Known/Responses.antt =====
-- What the cache knows stays known while a response is handled (`process_response` of
-- sippy/sip_transaction_manager.go).
use text.Mathlib.Text.{◌==◌ as str_eq}
use go_b2bua.Prelude.{ℕ, Bool, String, Option, none, some, if_lem, ltb, ◌||◌}
use go_b2bua.Sip.{HostPort}
use go_b2bua.Transaction.Message.{Via, t_addr, Msg, Tid, TrResponse}
use go_b2bua.Transaction.Cache.{response_out}
use go_b2bua.Transaction.Client.{Client}
use go_b2bua.Transaction.Manager.{Manager}
use go_b2bua.Transaction.Manager.Env.{Env}
use go_b2bua.Transaction.Manager.Incoming.{
  forward, relay_by, relay, hear, deliver_if, deliver_to, deliver, response_by, process_response,
  is_none,
}
use go_b2bua.Transaction.Manager.Known.{
  Known, transmit_data-Known, rcache_set_call_id-IsKept, run_client-Known,
}

module _ (env : Env) (q : String) where
  forward-Known :
      (server : ℕ) (sum : String) (taddr : HostPort) (resp : TrResponse) (tid : Tid)
      (msg : Option Msg) (m : Manager)
      → Known q m
      → Known q (forward env server sum taddr resp tid msg m)
  forward-Known server sum taddr resp tid none m h = h
  forward-Known server sum taddr resp tid (some msg) m h =
      rcache_set_call_id-IsKept q sum tid.call_id _ (
        transmit_data-Known q (some server) (some (response_out (record resp { msg = msg })))
          (some taddr) sum msg.call_id 0 m h)

  relay_by-Known :
      (address : HostPort) (server : ℕ) (sum : String) (resp : TrResponse) (tid : Tid)
      (via : Option Via) (m : Manager)
      → Known q m
      → Known q (relay_by env address server sum resp tid via m)
  unfolding relay_by
  relay_by-Known address server sum resp tid none m h = h
  relay_by-Known address server sum resp tid (some via) m h =
      if_lem (Known q) (str_eq (t_addr env.default_port via).port env.sip_port)
        (λ _. rcache_set_call_id-IsKept q sum tid.call_id m.cache h)
        (λ _. forward-Known server sum (t_addr env.default_port via) resp tid _ m h)

  relay-Known :
      (address : HostPort) (server : ℕ) (sum : String) (resp : TrResponse) (tid : Tid) (m : Manager)
      → Known q m
      → Known q (relay env address server sum resp tid m)
  unfolding relay
  relay-Known address server sum resp tid m h =
      if_lem (Known q) (is_none resp.msg.more_vias)
        (λ _. rcache_set_call_id-IsKept q sum tid.call_id m.cache h)
        (λ _. relay_by-Known address server sum resp tid resp.msg.via0 m h)

  hear-Known :
      (ref : ℕ) (address : HostPort) (sum : String) (resp : TrResponse) (msg : Option (Msg × Bool))
      (m : Manager)
      → Known q m
      → Known q (hear env ref address sum resp msg m)
  hear-Known ref address sum resp none m h = h
  hear-Known ref address sum resp (some (msg, fixed)) m h = run_client-Known q ref _ m h

  deliver_if-Known :
      (ref : ℕ) (address : HostPort) (sum : String) (resp : TrResponse) (looks : Option Bool)
      (m : Manager)
      → Known q m
      → Known q (deliver_if env ref address sum resp looks m)
  unfolding deliver_if
  deliver_if-Known ref address sum resp none m h = h
  deliver_if-Known ref address sum resp (some looks) m h = hear-Known ref address sum resp _ m h

  deliver_to-Known :
      (ref : ℕ) (address : HostPort) (sum : String) (resp : TrResponse) (t : Option Client)
      (m : Manager)
      → Known q m
      → Known q (deliver_to env ref address sum resp t m)
  unfolding deliver_to
  deliver_to-Known ref address sum resp none m h = h
  deliver_to-Known ref address sum resp (some t) m h = deliver_if-Known ref address sum resp _ m h

  deliver-Known :
      (address : HostPort) (server : ℕ) (sum : String) (resp : TrResponse) (tid : Tid)
      (ref : Option ℕ) (m : Manager)
      → Known q m
      → Known q (deliver env address server sum resp tid ref m)
  unfolding deliver
  deliver-Known address server sum resp tid none m h = relay-Known address server sum resp tid m h
  deliver-Known address server sum resp tid (some ref) m h =
      deliver_to-Known ref address sum resp _ m h

  response_by-Known :
      (address : HostPort) (server : ℕ) (sum : String) (resp : TrResponse) (tid : Option Tid)
      (m : Manager)
      → Known q m
      → Known q (response_by env address server sum resp tid m)
  unfolding response_by
  response_by-Known address server sum resp none m h = h
  response_by-Known address server sum resp (some tid) m h =
      if_lem (Known q) (ltb resp.scode 100 || ltb 999 resp.scode)
        (λ _. rcache_set_call_id-IsKept q sum tid.call_id m.cache h)
        (λ _. deliver-Known address server sum resp tid _ m h)

  pub process_response-Known :
      (address : HostPort) (server : ℕ) (sum : String) (resp : Option TrResponse) (m : Manager)
      → Known q m
      → Known q (process_response env address server sum resp m)
  unfolding process_response
  process_response-Known address server sum none m h = h
  process_response-Known address server sum (some resp) m h =
      response_by-Known address server sum resp _ m h
