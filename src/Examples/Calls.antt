-- ===== src/Examples/Calls.antt =====
-- A plugin that counts its hooks, called over a transport that wraps its errors.
use node_drain.Base.{ℕ, suc, String, true, Error, wrap, msg, ok, err, Exec, ◌≡◌, refl, ◌==◌}
use node_drain.Rpc.{DrainPlugin, serve, connect}
use node_drain.Rpc.Trip.{relabel, connect-serve}

abbrev counter : DrainPlugin ℕ
counter = record {
  plugin_info = λ n. (ok (record { id = "counter"; config_format = 1 }), n);
  init = λ config n. (ok tt, n);
  is_supported = λ n. (ok true, n);
  is_healthy = λ n. (ok true, n);
  is_drain_ok = λ name n. (ok (name == "n1"), n);
  pre_drain = λ name n. (ok tt, suc n);
  post_drain = λ name n. (err (msg name), suc n);
}

abbrev status : Error → Error
status e = wrap "rpc error: " e

abbrev transport : (A : Type 0) → Exec ℕ A → Exec ℕ A
transport A m = relabel status m

connect-serve_example :
    ((connect transport (serve counter)).plugin_info ≡ relabel status counter.plugin_info)
    × ((c : String) → (connect transport (serve counter)).init c ≡ relabel status (counter.init c))
    × ((connect transport (serve counter)).is_supported ≡ relabel status counter.is_supported)
    × ((connect transport (serve counter)).is_healthy ≡ relabel status counter.is_healthy)
    × ((n : String)
        → (connect transport (serve counter)).is_drain_ok n
          ≡ relabel status (counter.is_drain_ok n))
    × ((n : String)
        → (connect transport (serve counter)).pre_drain n ≡ relabel status (counter.pre_drain n))
    × ((n : String)
        → (connect transport (serve counter)).post_drain n ≡ relabel status (counter.post_drain n))
connect-serve_example = connect-serve transport status (λ A m. refl) counter
