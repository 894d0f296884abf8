-- ===== src/Connections/Shutdown.antt =====
-- What holds of Connections of internal/platform/bridge/connections.go whatever its goroutines do,
-- and what Shutdown waits for.
use service_backend.Prelude.{
  ℕ, suc, ◌+◌, ◌≤◌, ◌≡◌, refl, sym, subst, ◌||◌, String, Bool, true, false, Option, none, some, [],
  length, leb, by_test, inl, inr, arith,
}
use service_backend.Prelude.Map.{get, put, get-put-some, get-delete-some}
use service_backend.Prelude.Keys.{
  IsDistinct, empty, put-IsDistinct, delete-IsDistinct, map_values-IsDistinct,
  length-delete-missing, length-delete-found, length-map_values, get-map_values-some,
}
use service_backend.Connections.{Connection, fresh, close}
use service_backend.Connections.Steps.{Moves, by_others, closes}
use service_backend.Connections.Bounds.{IsBounded, close-done, Moves-IsBounded}
use service_backend.Connections.Order.{IsOrdered, Moves-IsOrdered}
use service_backend.Connections.Stopping.{closed_move}
use service_backend.Connections.Registry
use service_backend.Connections.Registry.{
  Connections, initial, max_peers, register, close_peer, closed_peer, stop, unregister, finish,
  Step, Reach,
}

-- a connection of a registry that is stopped or not
pub record IsKept (stopped : Bool) (c : Connection) : Type 0 where
  pub bounded : IsBounded c
  pub ordered : IsOrdered c
  pub closes_with : stopped ≡ true → c.done ≡ true

pub record IsSound (st : Connections) : Type 0 where
  pub distinct : IsDistinct st.peers
  pub size : length st.peers ≤ max_peers
  pub count : st.serving ≡ length st.peers + st.leaving
  pub kept : (id : String) (c : Connection) → get st.peers id ≡ some c → IsKept st.stopped c

Moves-IsKept : (stopped : Bool) (c d : Connection) → Moves c d → IsKept stopped c → IsKept stopped d
Moves-IsKept stopped c d m v = record {
  bounded = Moves-IsBounded c d m v.bounded;
  ordered = Moves-IsOrdered c d m v.ordered;
  closes_with = λ h. closed_move c d (v.closes_with h) m;
}

fresh-IsKept : IsKept false fresh
fresh-IsKept = record {
  bounded = record {
    bytes = refl;
    limit = omega arith;
    room = omega arith;
    once = refl;
    ending = λ e. elim e [ inl gone ↦ cc gone | inr cleaning ↦ cc cleaning ];
  };
  ordered = record { lost = []; prefix = refl; whole = λ runs. refl };
  closes_with = λ h. cc h;
}

-- a connection moves
moved-IsSound :
    (id : String) (c d : Connection) (st : Connections)
    → get st.peers id ≡ some c
    → Moves c d
    → IsSound st
    → IsSound (record st { peers = put id d st.peers })
unfolding put
moved-IsSound id c d st here m v = record {
  distinct = put-IsDistinct st.peers id d v.distinct;
  size = omega (arith, v.size, length-delete-found st.peers id v.distinct here);
  count = omega (arith, v.count, length-delete-found st.peers id v.distinct here);
  kept = λ j e found. elim (get-put-some st.peers id j d found) [
    | inl (_, same) ↦
        subst (IsKept st.stopped) same (Moves-IsKept st.stopped c d m (v.kept id c here))
    | inr old ↦ v.kept j e old
  ];
}

closed_peer-IsSound :
    (id : String) (o : Option Connection) (st : Connections)
    → get st.peers id ≡ o
    → IsSound st
    → IsSound (closed_peer id o st)
closed_peer-IsSound id none st here v = v
closed_peer-IsSound id (some c) st here v =
    moved-IsSound id c (close c) st here (by_others c _ (closes c)) v

registered-IsSound :
    (id : String) (st : Connections)
    → get st.peers id ≡ none
    → st.stopped ≡ false
    → leb max_peers (length st.peers) ≡ false
    → IsSound st
    → IsSound (record st { peers = put id fresh st.peers; serving = st.serving + 1 })
unfolding put
registered-IsSound id st new running room v = record {
  distinct = put-IsDistinct st.peers id fresh v.distinct;
  size = ground (arith, length-delete-missing st.peers id new);
  count = omega (arith, v.count, length-delete-missing st.peers id new);
  kept = λ j e found. elim (get-put-some st.peers id j fresh found) [
    | inl (_, same) ↦
        subst (λ (b : Bool). IsKept b e) (sym running) (subst (IsKept false) same fresh-IsKept)
    | inr old ↦ v.kept j e old
  ];
}

register-IsSound :
    (id : String) (st : Connections)
    → get st.peers id ≡ none
    → IsSound st
    → IsSound (register id st).1
unfolding register
register-IsSound id st new v =
    by_test (λ (r : Bool × Connections). IsSound r.1)
      (st.stopped || leb max_peers (length st.peers)) _ _ (λ refused. v)
      λ room. registered-IsSound id st new (ground (arith, room)) (ground (arith, room)) v

unregister-IsSound :
    (id : String) (c : Connection) (st : Connections)
    → get st.peers id ≡ some c
    → IsSound st
    → IsSound (unregister id st)
unfolding unregister
unregister-IsSound id c st here v = record {
  distinct = delete-IsDistinct st.peers id v.distinct;
  size = omega (arith, v.size, length-delete-found st.peers id v.distinct here);
  count = omega (arith, v.count, length-delete-found st.peers id v.distinct here);
  kept = λ j e found. v.kept j e (get-delete-some st.peers id j found).0;
}

finish-IsSound : (n : ℕ) (st : Connections) → st.leaving ≡ suc n → IsSound st → IsSound (finish st)
unfolding finish
finish-IsSound n st h v = record {
  distinct = v.distinct;
  size = v.size;
  count = omega (arith, v.count, h);
  kept = v.kept;
}

stop-IsSound : (st : Connections) → IsSound st → IsSound (stop st)
unfolding stop
stop-IsSound st v = record {
  distinct = map_values-IsDistinct close st.peers v.distinct;
  size = omega (arith, v.size, length-map_values close st.peers);
  count = omega (arith, v.count, length-map_values close st.peers);
  kept = λ j e found.
      let (c, here, same) = get-map_values-some close st.peers j found in
      let k = Moves-IsKept st.stopped c (close c) (by_others c _ (closes c)) (v.kept j c here) in
      subst (IsKept true) same
        (record { bounded = k.bounded; ordered = k.ordered; closes_with = λ _. close-done c });
}

pub Step-IsSound : (st next : Connections) → Step st next → IsSound st → IsSound next
unfolding close_peer
Step-IsSound _ _ (Registry.registers id st new) v = register-IsSound id st new v
Step-IsSound _ _ (Registry.closes id st) v = closed_peer-IsSound id (get st.peers id) st refl v
Step-IsSound _ _ (Registry.moves id c d st here m) v = moved-IsSound id c d st here m v
Step-IsSound _ _ (Registry.unregisters id c st here _ _) v = unregister-IsSound id c st here v
Step-IsSound _ _ (Registry.finishes n st h) v = finish-IsSound n st h v
Step-IsSound _ _ (Registry.stops st) v = stop-IsSound st v

-- In whatever order the goroutines run: at most 256 connections are registered, each with at most 32
-- queued payloads and 32 MiB; the bytes counted are those in the queue and those of a payload just
-- taken; what a connection has written is a beginning of what it accepted, in that order, and while
-- its writer runs only the payload in its hands and the queue are missing; its socket is closed once
-- if it is closed; after Shutdown every connection is closed; and the wait group counts the
-- registered connections and the calls of Serve that are about to return.
pub Reach-IsSound : (st : Connections) → Reach st → IsSound st
unfolding get
Reach-IsSound _ Registry.starts = record {
  distinct = empty;
  size = omega arith;
  count = refl;
  kept = λ id c found. cc found;
}
Reach-IsSound _ (Registry.goes st next before step) =
    Step-IsSound st next step (Reach-IsSound st before)
