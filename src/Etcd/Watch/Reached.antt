-- ===== src/Etcd/Watch/Reached.antt =====
-- What a watcher that makes a request knows, beside its server.
use mathlib.Core.Path.{subst}
use libatapp.Prelude.{
  ℕ, ◌+◌, ◌-◌, ◌≡◌, ◌≢◌, refl, sym, ap, ◌∙◌, true, false, not, ◌&&◌, ◌||◌, Option, none, some, ltb,
  ◌==◌, if◌then◌else◌, if-cases, arith,
}
use libatapp.Etcd.Keepalive.{Http}
use libatapp.Etcd.Watch.{
  Request, get_path, get_range, watch, Watcher, start_request, process_when, process, active,
  empty_stream,
}
use libatapp.Etcd.Watch.Server.{Server, opened, IsWatching, IsGetting}

-- the revision that a watcher is at: that of the watch in flight, or else the one it has saved
abbrev pub reached : Option Request → ℕ → Server → ℕ
reached (some (watch n)) last s = s.position
reached _ last s = last

module _ {ℓ} {S : Type ℓ} (at : ℕ → S) where
  -- what `k`, the state that the handler knows, has to do with the server
  abbrev pub IsReached : Option Request → ℕ → Server → S → Type ℓ
  IsReached (some (watch n)) last s k = (k ≡ at s.position) × (last ≢ 0 → last ≡ s.latest)
  IsReached _ last s k = last ≢ 0 → k ≡ at last

  pub got-IsReached :
      (o : Option Request) (last : ℕ) (s : Server) (k : S)
      → IsGetting o
      → IsReached o last s k
      → IsReached none last s k
  got-IsReached (some get_path) last s k g h = h
  got-IsReached (some get_range) last s k g h = h
  got-IsReached (some (watch n)) last s k g h = absurd g
  got-IsReached none last s k g h = absurd g

  pub quit-IsReached :
      (o : Option Request) (last : ℕ) (s : Server) (k : S)
      → IsWatching o
      → (last ≢ 0 → at s.position ≡ at s.latest)
      → IsReached o last s k
      → IsReached none last s k
  quit-IsReached (some (watch m)) last s k g x h = λ n. h.0 ∙ x n ∙ ap at (sym (h.1 n))
  quit-IsReached (some get_path) last s k g x h = absurd g
  quit-IsReached (some get_range) last s k g x h = absurd g
  quit-IsReached none last s k g x h = absurd g

  -- a watcher without a request makes one, or none
  abbrev Makes : Server → S → Watcher → Type ℓ
  Makes s k v = IsReached v.rpc_opr v.last_revision (opened none v.rpc_opr s) k

  start-Makes :
      (http : Http) (now : ℕ) (r : Request) (s : Server) (k : S) (w : Watcher)
      → Makes s k w
      → (w.last_revision ≢ 0 → k ≡ at w.last_revision)
      → IsReached (some r) w.last_revision (opened none (some r) s) k
      → Makes s k (start_request http now r w)
  start-Makes http now r s k w idle h q =
      if-cases (λ v. Makes s k v) (not http.creates) _ _ (λ e. idle)
        (λ e.
          if-cases (λ o. IsReached o w.last_revision (opened none o s) k) http.starts _ _ (λ t. q)
            (λ t. h))

  pub reached-known :
      (o : Option Request) (last : ℕ) (s : Server) (k : S)
      → last ≢ 0
      → IsReached o last s k
      → k ≡ at (reached o last s)
  reached-known (some (watch n)) last s k p h = h.0
  reached-known (some get_path) last s k p h = h p
  reached-known (some get_range) last s k p h = h p
  reached-known none last s k p h = h p

  module _ (random_between : ℕ → ℕ) where
    when-IsReached :
        (o : Option Request) (http : Http) (now : ℕ) (s : Server) (k : S) (w : Watcher)
        → w.rpc_opr ≡ o
        → IsReached o w.last_revision s k
        → let v = process_when random_between o http now w in
          IsReached v.rpc_opr v.last_revision (opened o v.rpc_opr s) k
    when-IsReached (some r) http now s k w e h =
        subst (λ q. IsReached q w.last_revision s k) (sym e) h
    when-IsReached none http now s k w e h =
        let idle : Makes s k w =
          subst (λ q. IsReached q w.last_revision (opened none q s) k) (sym e) h in
        if-cases (λ v. Makes s k v) (ltb now w.next_request_time) _ _ (λ e. idle)
          (λ e.
            if-cases (λ v. Makes s k v)
              (w.next_request_time == 0 && ltb 0 w.startup_random_delay_min) _ _ (λ e. idle)
              (λ e.
                if-cases (λ v. Makes s k v) (w.last_revision == 0 || w.is_retry_mode) _ _
                  (λ e.
                    start-Makes http now (if w.is_retry_mode then get_path else get_range) s k
                      (record w { is_actived = false }) idle h
                      (if-cases (λ r. IsReached (some r) w.last_revision (opened none (some r) s) k)
                        w.is_retry_mode _ _ (λ t. h) (λ t. h)))
                  (λ e.
                    let back : w.last_revision + 1 - 1 ≡ w.last_revision = omega arith in
                    let positive : w.last_revision ≢ 0 = λ z. absurd (ground (arith, e, z)) in
                    start-Makes http now (watch (w.last_revision + 1)) s k
                      (record w {
                        is_actived = false;
                        data_stream = if http.creates then empty_stream else w.data_stream;
                      })
                      idle h (h positive ∙ ap at (sym back), λ n. sym back))))

    pub active-IsReached :
        (http : Http) (now : ℕ) (s : Server) (k : S) (w : Watcher)
        → IsReached w.rpc_opr w.last_revision s k
        → let v = active random_between http now w in
          IsReached v.rpc_opr v.last_revision (opened w.rpc_opr v.rpc_opr s) k
    unfolding active process
    active-IsReached http now s k w h =
        when-IsReached w.rpc_opr http now s k (record w { is_actived = true }) refl h
