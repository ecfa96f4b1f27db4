-- ===== src/State/Refinement.antt =====
-- gateway-state/src/lib.rs against its contract: each method acts on the directory of clients
-- (`State.View`) as the operation here says, and keeps the state well-formed.
use ic_websocket_gateway.Prelude.{
  ℕ, suc, ◌≡◌, ◌↔◌, refl, fun_ext, none, some, ite, arith, done, panic, Option-cases, Bool-cases,
  ◌==◌, ==_iff, inl, inr,
}
use ic_websocket_gateway.DashMap.{DashMap}
use ic_websocket_gateway.CanisterUtils.{ClientKey}
use ic_websocket_gateway.State.{
  GatewayState, ClientSender, PollerState, write, entry, client_at, key_dec, without,
  insert_client_channel_and_get_new_poller_state, remove_client, remove_client_if_exists, removed,
  vacant, empty, not_empty, remove_canister_if_empty, remove_failed_canister, clients_len,
}
use ic_websocket_gateway.State.View.{
  view, IsWellFormed, view-write, IsWellFormed-write, IsWellFormed-grow, IsWellFormed-shrink,
}
use ic_websocket_gateway.State.Directory.{
  clients_of, put, drop_client, drop_canister, Ends, get-insert_all, get-remove_all, get-insert_new,
  len-eq-zero_all,
}

module _ (D : DashMap) {P : Type 0} (dec : Discrete P) where
  module _ (gs : GatewayState D P) (wf : IsWellFormed D dec gs) (canister_id : P) where
    -- The entry of a new canister: its only client is the one inserted.
    view-grow :
        (k : ClientKey P) (v : ClientSender)
        → entry D dec gs canister_id ≡ none
        → (c : P)
        → view D dec
            (record {
              inner_data = D.insert dec canister_id gs.next_address gs.inner_data;
              memory =
                  write gs.next_address
                    (D.insert (key_dec D dec) k v (D.new (key_dec D dec)))
                    gs.memory;
              next_address = suc gs.next_address;
            })
            c
          ≡ put D dec (view D dec gs) canister_id k v c
    view-grow k v free c = elim (Option-cases (entry D dec gs c)) [
      | inl e ↦
          ground (arith, inserted, get-insert_new D dec k v, ==_iff gs.next_address gs.next_address)
      | inr (a, e) ↦ ground (arith, inserted, wf.allocated c a, ==_iff a gs.next_address)
    ]
      where
        inserted :
            D.get dec (D.insert dec canister_id gs.next_address gs.inner_data) c
            ≡ ite (dec c canister_id) (some gs.next_address) (D.get dec gs.inner_data c)
        inserted = D.get-insert dec canister_id gs.next_address gs.inner_data c

    view-shrink :
        (c : P)
        → view D dec (record gs { inner_data = D.remove dec canister_id gs.inner_data }) c
          ≡ drop_canister D dec (view D dec gs) canister_id c
    view-shrink c = ground (arith, D.get-remove dec canister_id gs.inner_data c)

    view-without :
        (k : ClientKey P) (a : PollerState)
        → entry D dec gs canister_id ≡ some a
        → (c : P)
        → view D dec (without D dec gs canister_id k a) c
          ≡ drop_client D dec (view D dec gs) canister_id k c
    view-without k a at c = ground (
      arith,
      view-write D dec gs wf canister_id a (D.remove (key_dec D dec) k (gs.memory a)) at c,
      get-remove_all D dec k (gs.memory a),
    )

    -- `insert_client_channel_and_get_new_poller_state`, on both branches: the client is added to
    -- its canister and nothing else changes; the state stays well-formed; a poller state is
    -- returned only if the canister had no entry, and it is then the entry that the canister gets.
    pub insert_refines :
        (k : ClientKey P) (tx span : ℕ)
        → let (gs', started) =
            insert_client_channel_and_get_new_poller_state D dec gs canister_id k tx span in
          (view D dec gs'
            ≡ put D dec (view D dec gs) canister_id k (record { sender = tx; span = span }))
          × IsWellFormed D dec gs'
          × (started ≡ (elim (entry D dec gs canister_id) [
            | none ↦ entry D dec gs' canister_id
            | some _ ↦ none
          ]))
    unfolding insert_client_channel_and_get_new_poller_state
    insert_refines k tx span = elim (Option-cases (entry D dec gs canister_id)) [
      | inl e ↦
          rw (e, insert_client_channel_and_get_new_poller_state)
            (
              fun_ext (view-grow k client e),
              IsWellFormed-grow D dec gs canister_id _ wf,
              ground
                  (arith, D.get-insert dec canister_id gs.next_address gs.inner_data canister_id),
            )
      | inr (a, e) ↦
          rw (e, insert_client_channel_and_get_new_poller_state)
            (
              fun_ext (λ c. ground (
                arith,
                view-write D dec gs wf canister_id a
                    (D.insert (key_dec D dec) k client (gs.memory a)) e c,
                get-insert_all D dec k client (gs.memory a),
              )),
              IsWellFormed-write D dec gs a _ wf,
              refl,
            )
    ]
      where
        client : ClientSender
        client = record { sender = tx; span = span }

    -- `remove_client`: nothing happens to a canister with no entry; of a canister that has one it
    -- removes the client, and it panics exactly if the client is not there.
    pub remove_client_refines :
        (k : ClientKey P)
        → Ends D dec (remove_client D dec gs canister_id k) (elim (view D dec gs canister_id) [
          | none ↦ done (view D dec gs)
          | some clients ↦ elim (clients k) [
            | none ↦ panic "Client key not found in poller state"
            | some _ ↦ done (drop_client D dec (view D dec gs) canister_id k)
          ]
        ])
    unfolding remove_client
    remove_client_refines k = elim (Option-cases (entry D dec gs canister_id)) [
      | inl e ↦ rw (e, remove_client) (refl, wf)
      | inr (a, e) ↦ elim (Option-cases (client_at D dec gs a k)) [
        | inl missing ↦ rw (e, remove_client, missing) refl
        | inr (v, there) ↦
            rw (e, remove_client, there)
              (fun_ext (view-without k a e), IsWellFormed-write D dec gs a _ wf)
      ]
    ]

    -- `remove_client_if_exists` never panics: it removes the client if it is there, says so, and
    -- changes nothing else.
    pub remove_client_if_exists_refines :
        (k : ClientKey P)
        → let (gs', result) = remove_client_if_exists D dec gs canister_id k in
          IsWellFormed D dec gs'
          × (view D dec gs' ≡ (elim (clients_of (view D dec gs canister_id) k) [
            | none ↦ view D dec gs
            | some _ ↦ drop_client D dec (view D dec gs) canister_id k
          ]))
          × (result ≡ (elim (clients_of (view D dec gs canister_id) k) [
            | none ↦ vacant
            | some _ ↦ removed k
          ]))
    unfolding remove_client_if_exists
    remove_client_if_exists_refines k = elim (Option-cases (entry D dec gs canister_id)) [
      | inl e ↦ rw (e, remove_client_if_exists) (wf, refl, refl)
      | inr (a, e) ↦ elim (Option-cases (client_at D dec gs a k)) [
        | inl missing ↦ rw (e, remove_client_if_exists, missing) (wf, refl, refl)
        | inr (v, there) ↦
            rw (e, remove_client_if_exists, there)
              (IsWellFormed-write D dec gs a _ wf, fun_ext (view-without k a e), refl)
      ]
    ]

    -- `remove_canister_if_empty` removes the entry, with its poller state, exactly if the canister
    -- has one without any client; otherwise nothing changes. It never drops a client.
    pub remove_canister_if_empty_refines :
        let (gs', result) = remove_canister_if_empty D dec gs canister_id in
        IsWellFormed D dec gs'
        × ((result ≡ empty) ↔ (view D dec gs canister_id ≡ some (λ _. none)))
        × (view D dec gs' ≡ (elim result [
          | empty ↦ drop_canister D dec (view D dec gs) canister_id
          | not_empty ↦ view D dec gs
        ]))
    unfolding remove_canister_if_empty
    remove_canister_if_empty_refines = elim (Option-cases (entry D dec gs canister_id)) [
      | inl e ↦ rw (e, remove_canister_if_empty) (wf, ((λ h. cc), (λ h. ground arith)), refl)
      | inr (a, e) ↦ elim (Bool-cases (clients_len D dec gs a == 0)) [
        | inl none_left ↦
            rw (e, remove_canister_if_empty, none_left)
              (
                IsWellFormed-shrink D dec gs canister_id wf,
                ((λ h. ground (arith, len-eq-zero_all D dec (gs.memory a))), (λ h. refl)),
                fun_ext view-shrink,
              )
        | inr some_left ↦
            rw (e, remove_canister_if_empty, some_left)
              (wf, ((λ h. cc), (λ h. ground (arith, len-eq-zero_all D dec (gs.memory a)))), refl)
      ]
    ]

    -- `remove_failed_canister` removes the entry of the canister with all its clients, and panics
    -- exactly if there is none.
    pub remove_failed_canister_refines :
        Ends D dec (remove_failed_canister D dec gs canister_id) (elim (view D dec gs canister_id) [
          | none ↦ panic "failed canister not found in gateway state"
          | some _ ↦ done (drop_canister D dec (view D dec gs) canister_id)
        ])
    unfolding remove_failed_canister
    remove_failed_canister_refines = elim (Option-cases (entry D dec gs canister_id)) [
      | inl e ↦ rw (e, remove_failed_canister) refl
      | inr (a, e) ↦
          rw (e, remove_failed_canister)
            (fun_ext view-shrink, IsWellFormed-shrink D dec gs canister_id wf)
    ]
