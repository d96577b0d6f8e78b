-- ===== src/Discovery/Async/Same.antt =====
-- The asynchronous `createPath` does what the synchronous one does, when nothing else happens meanwhile.
use mathlib.Core.List.{append_assoc}
use ezbake_common_cpp.Common.Async.{crashed, Run, Ending, completed, escaped, run}
use ezbake_common_cpp.Common.Result.{Exception, Result, ok, throw, service_discovery_exception}
use ezbake_common_cpp.Common.{
  ℕ, ◌≡◌, ◌↔◌, refl, sym, ap, ◌∙◌, Bool-cases, inl, inr, true, false, not, some, List, [], ◌∷◌,
  ◌++◌, suc, length, if◌then◌else◌, Text, codes, All,
}
use ezbake_common_cpp.Discovery.Async.Process.{
  created, ReturnCode-cases, process_create-refused, process_create-more, process_create-last,
}
use ezbake_common_cpp.Discovery.Async.{
  ZkOp, ZkReply, exists, get_nodes, create, remove, CallbackResponse, ok_response, error_response,
  Zk, create_node,
}
use ezbake_common_cpp.Discovery.Paths.{path_delim}
use ezbake_common_cpp.Discovery.Paths.RoundTrip.{IsName, join}
use ezbake_common_cpp.Discovery.Registry.Created.{join-append}
use ezbake_common_cpp.Discovery.Registry.{ZooKeeper, is_ok_or_exists, is_ok, create_parents}

-- ZooKeeper answers each request at once; a node that was made is reported with its path.
unfoldable pub zk_step : {Z : Type 0} → ZooKeeper Z → Z → (op : ZkOp) → Z × ZkReply op
unfolding is_ok
zk_step zk z (exists path) = (z, some (zk.exists z path))
zk_step zk z (get_nodes path) = (z, some (zk.get_children z path))
zk_step zk z (create path) =
    let (after, rc) = zk.create z path in (after, some (rc, if is_ok rc then path else []))
zk_step zk z (remove path) = let (after, rc) = zk.remove z path in (after, some rc)

-- The callback was called once and the handlers completed, or an exception left one of them and the
-- callback was not called.
abbrev pub IsTold : List CallbackResponse → Ending → Type 0
IsTold (_ ∷ []) completed = Unit
IsTold [] (escaped e) = Unit
IsTold calls ending = ⊥

-- The same world, and the callback is told that the path is there exactly if the function that waits
-- returns; else it is told of an error, or an exception has left a handler.
abbrev pub Agrees : {Z : Type 0} → Run Z CallbackResponse → Z × Result (Unit {0}) → Type 0
Agrees r (z, outcome) =
    (r.world ≡ z) × ((outcome ≡ ok tt) ↔ (r.calls ≡ ok_response ∷ [])) × IsTold r.calls r.ending

module _ {Z : Type 0} (zk : ZooKeeper Z) where
  -- The last part of the synchronous `createPath`.
  abbrev pub made : Text → Z × Result (Unit {0}) → Z × Result (Unit {0})
  made path (parents, outcome) = elim outcome [
    | ok u ↦
        let (after, response) = zk.create parents path in
        (
          after,
          if not (is_ok response)
              then throw (
                  service_discovery_exception (
                    codes "Error in creating node: "
                    ++ (path ++ (codes " ZK error: " ++ zk.code_text response))))
              else ok tt,
        )
    | other ↦ (parents, other)
  ]

  create_node_last :
      (above : List Text) (m : Text) (z : Z)
      → All IsName (above ++ (m ∷ []))
      → Agrees
          (run (zk_step zk) (create_node 1 (join (above ++ (m ∷ []))) (join (above ++ (m ∷ [])))) z)
          (made (join (above ++ (m ∷ []))) (z, ok tt))
  unfolding create_node run zk_step is_ok is_ok_or_exists
  create_node_last above m z named =
      let path = join (above ++ (m ∷ [])) in
      let last = process_create-last (λ next. crashed) above m (zk.create z path).1 named in
      elim (ReturnCode-cases (zk.create z path).1) [
        | inl good ↦ rw (last, good, run) (refl, ((λ h. refl), (λ h. refl)), tt)
        | inr (inl there) ↦
            rw (last, there, run) (refl, ((λ h. absurd (cc h)), (λ h. absurd (cc h))), tt)
        | inr (inr (inl bad)) ↦
            rw (last, bad, run) (refl, ((λ h. absurd (cc h)), (λ h. absurd (cc h))), tt)
        | inr (inr (inr (n, bad))) ↦
            rw (last, bad, run) (refl, ((λ h. absurd (cc h)), (λ h. absurd (cc h))), tt)
      ]

  -- A node above the last, on both sides.
  create_node-more :
      (above : List Text) (k : Text) (names : List Text) (z : Z)
      → All IsName (above ++ (k ∷ names))
      → is_ok_or_exists (zk.create z (join above)).1 ≡ true
      → run
          (zk_step zk)
          (create_node (suc (suc (length names))) (join (above ++ (k ∷ names))) (join above))
          z
        ≡ run
            (zk_step zk)
            (create_node
              (suc (length names))
              (join (above ++ (k ∷ names)))
              (join (above ++ (k ∷ []))))
            (zk.create z (join above)).0
  unfolding run zk_step create_node
  create_node-more above k names z named good =
      let next : Text → Zk CallbackResponse =
        create_node (suc (length names)) (join (above ++ (k ∷ names))) in
      let after = (zk.create z (join above)).0 in
      ap (λ h. run (zk_step zk) h after)
        (process_create-more next above k names (zk.create z (join above)).1 named good
          ∙ ap next (sym (join-append above k)))

  create_parents-step :
      (to_create m k : Text) (names : List Text) (z : Z)
      → is_ok_or_exists (zk.create z (to_create ++ (path_delim ∷ m))).1 ≡ true
      → create_parents zk z to_create (m ∷ k ∷ names)
        ≡ create_parents zk
            (zk.create z (to_create ++ (path_delim ∷ m))).0
            (to_create ++ (path_delim ∷ m))
            (k ∷ names)
  unfolding create_parents
  create_parents-step to_create m k names z good = rw good refl

  create_parents-more :
      (above : List Text) (m k : Text) (names : List Text) (z : Z)
      → is_ok_or_exists (zk.create z (join (above ++ (m ∷ [])))).1 ≡ true
      → create_parents zk z (join above) (m ∷ k ∷ names)
        ≡ create_parents zk
            (zk.create z (join (above ++ (m ∷ [])))).0
            (join (above ++ (m ∷ [])))
            (k ∷ names)
  create_parents-more above m k names z good =
      rw (join-append above m)
        (create_parents-step (join above) m k names z (rw (join-append above m) at good))

  create_parents-refused :
      (to_create m k : Text) (names : List Text) (z : Z)
      → is_ok_or_exists (zk.create z (to_create ++ (path_delim ∷ m))).1 ≡ false
      → (e : Exception) × (create_parents zk z to_create (m ∷ k ∷ names)
          ≡ ((zk.create z (to_create ++ (path_delim ∷ m))).0, throw e))
  unfolding create_parents
  create_parents-refused to_create m k names z bad =
      let path = to_create ++ (path_delim ∷ m) in
      (
        service_discovery_exception (
            codes "Error in creating parents for node: "
            ++ (path ++ (codes " ZK error: " ++ zk.code_text (zk.create z path).1))),
        rw bad refl,
      )

  create_node-refused :
      (fuel : ℕ) (principal_path path : Text) (z : Z)
      → is_ok_or_exists (zk.create z path).1 ≡ false
      → run (zk_step zk) (create_node (suc fuel) principal_path path) z
        ≡ record { world = (zk.create z path).0; calls = error_response ∷ []; ending = completed }
  unfolding create_node run zk_step
  create_node-refused fuel principal_path path z bad =
      ap (λ h. run (zk_step zk) h (zk.create z path).0)
        (process_create-refused (create_node fuel principal_path) principal_path path
          (created (zk.create z path).1 path) (zk.create z path).1 bad)

  -- ZooKeeper refuses to make the node: both stop.
  create_node-stops :
      (above : List Text) (m k : Text) (names : List Text) (z : Z)
      → is_ok_or_exists (zk.create z (join (above ++ (m ∷ [])))).1 ≡ false
      → Agrees
          (run
            (zk_step zk)
            (create_node
              (suc (suc (length names)))
              (join (above ++ (m ∷ k ∷ names)))
              (join (above ++ (m ∷ []))))
            z)
          (made
            (join (above ++ (m ∷ k ∷ names)))
            (create_parents zk z (join above) (m ∷ k ∷ names)))
  create_node-stops above m k names z bad =
      let path = join (above ++ (m ∷ [])) in
      let (e, stopped) =
        create_parents-refused (join above) m k names z (rw (join-append above m) at bad) in
      rw
        (
          create_node-refused (suc (length names)) (join (above ++ (m ∷ k ∷ names))) path z bad,
          stopped,
          join-append above m,
        )
        (refl, ((λ h. absurd (cc h)), (λ h. absurd (cc h))), tt)

  pub create_node_lem :
      (above : List Text) (m : Text) (names : List Text) (z : Z)
      → All IsName (above ++ (m ∷ names))
      → Agrees
          (run
            (zk_step zk)
            (create_node
              (suc (length names))
              (join (above ++ (m ∷ names)))
              (join (above ++ (m ∷ []))))
            z)
          (made (join (above ++ (m ∷ names))) (create_parents zk z (join above) (m ∷ names)))
  unfolding create_parents
  create_node_lem above m [] z named = create_node_last above m z named
  create_node_lem above m (k ∷ names) z named =
      let here = above ++ (m ∷ []) in
      let regrouped : above ++ (m ∷ k ∷ names) ≡ here ++ (k ∷ names) =
        sym (append_assoc above (m ∷ []) (k ∷ names)) in
      let renamed : All IsName (here ++ (k ∷ names)) = rw regrouped at named in
      elim (Bool-cases (is_ok_or_exists (zk.create z (join here)).1)) [
        | inr bad ↦ create_node-stops above m k names z bad
        | inl good ↦
            rw
              (
                create_parents-more above m k names z good,
                regrouped,
                create_node-more here k names z renamed good,
              )
              (create_node_lem here k names (zk.create z (join here)).0 renamed)
      ]
