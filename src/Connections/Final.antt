-- ===== src/Connections/Final.antt =====
-- That nothing comes after Shutdown of internal/platform/bridge/connections.go.
use service_backend.Prelude.{
  ℕ, ◌≡◌, refl, sym, ap, ◌∙◌, ◌||◌, String, Bool, true, false, none, [], ◌∷◌, length, leb, arith,
  by_test,
}
use service_backend.Prelude.Map.{Map, get}
use service_backend.Prelude.Keys.{map_values}
use service_backend.Connections.{Connection, close}
use service_backend.Connections.Registry
use service_backend.Connections.Registry.{
  Connections, max_peers, register, close_peer, closed_peer, stop, unregister, finish, Step, Reach,
  Later, now, after,
}
use service_backend.Connections.Shutdown.{Reach-IsSound}

-- nothing is registered, and nothing will be
record IsQuiet (st : Connections) : Type 0 where
  no_peers : st.peers ≡ []
  is_stopped : st.stopped ≡ true
  no_leaving : st.leaving ≡ 0
  not_serving : st.serving ≡ 0

absent : (st : Connections) (id : String) → IsQuiet st → get st.peers id ≡ none
unfolding get
absent st id q = ap (λ (m : Map Connection). get m id) q.no_peers

Step-IsQuiet : (st next : Connections) → Step st next → IsQuiet st → IsQuiet next
unfolding register close_peer stop
Step-IsQuiet _ _ (Registry.registers id st new) q =
    by_test (λ (r : Bool × Connections). IsQuiet r.1)
      (st.stopped || leb max_peers (length st.peers)) _ _ (λ refused. q)
      λ room. (let bad : true ≡ false = ground (arith, room, q.is_stopped) in cc bad)
Step-IsQuiet _ _ (Registry.closes id st) q = rw (absent st id q, close_peer) q
Step-IsQuiet _ _ (Registry.moves id c d st here m) q = cc (sym here ∙ absent st id q)
Step-IsQuiet _ _ (Registry.unregisters id c st here _ _) q = cc (sym here ∙ absent st id q)
Step-IsQuiet _ _ (Registry.finishes n st h) q = cc (sym h ∙ q.no_leaving)
Step-IsQuiet _ _ (Registry.stops st) q = record {
  no_peers = ap (map_values close) q.no_peers;
  is_stopped = refl;
  no_leaving = q.no_leaving;
  not_serving = q.not_serving;
}

Later-IsQuiet : (st next : Connections) → Later st next → IsQuiet st → IsQuiet next
Later-IsQuiet st _ now q = q
Later-IsQuiet st _ (after mid next before step) q =
    Step-IsQuiet mid next step (Later-IsQuiet st mid before q)

empty_peers : (m : Map Connection) → length m ≡ 0 → m ≡ []
empty_peers [] h = refl
empty_peers (p ∷ m) h = let bad : ◌≡◌ {A = ℕ} 0 1 = omega (arith, h) in cc bad

-- When the wait of Shutdown is over, no connection is registered and no call of Serve is about to
-- return; and this stays so, whatever comes later.
pub shutdown_final :
    (st next : Connections)
    → Reach st
    → st.stopped ≡ true
    → st.serving ≡ 0
    → Later st next
    → (next.peers ≡ []) × (next.leaving ≡ 0) × (next.serving ≡ 0)
shutdown_final st next reach is_stopped served later =
    let sound = Reach-IsSound st reach in
    let quiet = Later-IsQuiet st next later (record {
      no_peers = empty_peers st.peers (omega (arith, sound.count, served));
      is_stopped = is_stopped;
      no_leaving = omega (arith, sound.count, served);
      not_serving = served;
    }) in
    (quiet.no_peers, quiet.no_leaving, quiet.not_serving)
