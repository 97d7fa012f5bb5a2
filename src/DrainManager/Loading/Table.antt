-- ===== src/DrainManager/Loading/Table.antt =====
-- The tables that the loading of the plugins builds: their clients are initialised, under distinct
-- identifiers that the plugins gave, and belong to the files of the directory.
use node_drain.Base.{
  String, Bool, true, false, ◌||◌, ◌≡◌, refl, ap, ◌==◌, ◌⊎◌, inl, inr, List, [], ◌∷◌, map, All,
  eq_iff, Result, ok, wrapping, look,
}
use node_drain.Base.Outcomes.{
  Outcome, Outcome-bind, Outcome-wrapping, Outcome-reply, Outcome-lift, Outcome-if, Outcome-pure,
  Outcome-fail,
}
use node_drain.Rpc.{PluginInfo}
use node_drain.DrainManager.Loading.{
  is_unspecified, PluginCall, asked_info, initialised, DrainClientInfo, Tables, Processes,
  plugin_call, has_client, check_info, add_client, register, init_client, init_plugin,
}

abbrev pub Distinct : List (String × DrainClientInfo) → Type 0
Distinct [] = Unit
Distinct ((i, c) ∷ cs) = (has_client i cs ≡ false) × Distinct cs

abbrev pub names : Tables → List String
names st = map (λ k. k.0) st.plugin_file_id

or_true : (a b : Bool) → b ≡ true → a || b ≡ true
or_true true b h = refl
or_true false b h = h

module _ (p : Processes) where
  -- A call of Init with the plugin's configuration returned no error.
  abbrev pub Initialised : DrainClientInfo → List PluginCall → Type 0
  Initialised c [] = ⊥
  Initialised c (e ∷ t) =
      ((config : String) × (p.plugin_config c.info.config_format c.info.id ≡ ok config)
        × (e ≡ initialised c.client config)
        × (p.init t c.client config ≡ ok tt))
      ⊎ Initialised c t

  -- The plugin itself gave what is known of it.
  abbrev pub Told : DrainClientInfo → List PluginCall → Type 0
  Told c [] = ⊥
  Told c (e ∷ t) = ((e ≡ asked_info c.client) × (p.plugin_info t c.client ≡ ok c.info)) ⊎ Told c t

  abbrev pub IsUsable : List PluginCall → DrainClientInfo → Type 0
  IsUsable calls c =
      (c.info.id == "" ≡ false)
      × (is_unspecified c.info.config_format ≡ false)
      × Initialised c calls
      × Told c calls

  -- The identifiers are distinct, each belongs to a plugin that is initialised, and each file's
  -- identifier is in the table.
  abbrev pub IsTable : Tables → Type 0
  IsTable st =
      Distinct st.drain_clients
      × All (λ k. (k.0 ≡ k.1.info.id) × IsUsable st.calls k.1) st.drain_clients
      × All (λ k. has_client k.1 st.drain_clients ≡ true) st.plugin_file_id

  All-map :
      {A : Type 0} (P Q : A → Type 0) → ((a : A) → P a → Q a) → (xs : List A) → All P xs → All Q xs
  All-map P Q f [] h = tt
  All-map P Q f (x ∷ xs) h = (f x h.0, All-map P Q f xs h.1)

  pub called-IsTable :
      (st : Tables) (e : PluginCall) → IsTable st → IsTable (record st { calls = e ∷ st.calls })
  called-IsTable st e (d, c, f) =
      (d, All-map _ _ (λ k h. (h.0, (h.1.0, h.1.1, inr h.1.2, inr h.1.3))) st.drain_clients c, f)

  -- What each step keeps: the table and the names of the files.
  abbrev pub Keeping : List String → Tables → Type 0
  Keeping ns st = IsTable st × (names st ≡ ns)

  call-Outcome :
      {A : Type 0} (Q : A → Tables → Type 0) (text : String) (reply : List PluginCall → Result A)
      (e : PluginCall) (st : Tables)
      → IsTable st
      → ((a : A)
          → reply st.calls ≡ ok a
          → IsTable (record st { calls = e ∷ st.calls })
          → Q a (record st { calls = e ∷ st.calls }))
      → Outcome IsTable Q (wrapping text (plugin_call reply e) st)
  unfolding plugin_call
  call-Outcome Q text reply e st h k =
      let g = called-IsTable st e h in
      Outcome-wrapping IsTable Q text _ st (
        Outcome-reply IsTable Q (reply st.calls) (record st { calls = e ∷ st.calls }) g
          (λ a q. k a q g))

  abbrev Checked : PluginInfo → Type 0
  Checked info = (info.id == "" ≡ false) × (is_unspecified info.config_format ≡ false)

  check_info-Outcome :
      (base : String) (info : PluginInfo) (P : Tables → Type 0) (st : Tables)
      → IsTable st
      → P st
      → Outcome IsTable (λ _ st'. P st' × Checked info) (check_info base info st)
  unfolding check_info
  check_info-Outcome base info P st h q =
      Outcome-if IsTable _ (info.id == "") _ _ st (λ e. Outcome-fail IsTable _ _ st h)
        (λ e.
          Outcome-if IsTable _ (is_unspecified info.config_format) _ _ st
            (λ f. Outcome-fail IsTable _ _ st h) (λ f. Outcome-pure IsTable _ tt st (q, (e, f))))

  -- What an initialised client has.
  abbrev pub Made : List String → String → PluginInfo → Tables → Type 0
  Made ns base info st = Keeping ns st × IsUsable st.calls (record { client = base; info = info })

  abbrev Asked : List String → String → PluginInfo → Tables → Type 0
  Asked ns base info st = Keeping ns st × Told (record { client = base; info = info }) st.calls

  init_client-Outcome :
      (ns : List String) (base : String) (drain : Bool) (st : Tables)
      → Keeping ns st
      → Outcome IsTable (Made ns base) (init_client p base drain st)
  unfolding init_client
  init_client-Outcome ns base false st h = Outcome-fail IsTable _ _ st h.0
  init_client-Outcome ns base true st h =
      Outcome-bind IsTable (Asked ns base) _ _ _ st
        (call-Outcome _ _ _ _ st h.0 (λ info q g. ((g, h.1), inl (refl, q))))
        (λ info st1 h1.
          Outcome-bind IsTable (λ _ s. Asked ns base info s × Checked info) _ _ _ st1
            (check_info-Outcome base info (Asked ns base info) st1 h1.0.0 h1)
            (λ _ st2 h2.
              Outcome-bind IsTable
                (λ config s.
                  (Asked ns base info s × Checked info)
                  × (p.plugin_config info.config_format info.id ≡ ok config))
                _ _ _ st2
                (Outcome-wrapping IsTable _ _ _ st2
                  (Outcome-lift IsTable _ _ st2 h2.0.0.0 (λ config q. (h2, q))))
                (λ config st3 h3.
                  Outcome-bind IsTable (λ _. Made ns base info) _ _ _ st3
                    (call-Outcome _ _ _ _ st3 h3.0.0.0.0 (λ _ q g. (
                      (g, h3.0.0.0.1),
                      (h3.0.1.0, h3.0.1.1, inl (config, h3.1, refl, q), inr h3.0.0.1),
                    )))
                    (λ _ st4 h4. Outcome-pure IsTable _ info st4 h4))))

  pub init_plugin-Outcome :
      (ns : List String) (base : String) (st : Tables)
      → Keeping ns st
      → Outcome IsTable (Made ns base) (init_plugin p base st)
  unfolding init_plugin
  init_plugin-Outcome ns base st h =
      Outcome-bind IsTable (λ _. Keeping ns) _ _ _ st
        (call-Outcome _ _ _ _ st h.0 (λ _ q g. (g, h.1)))
        (λ _ st1 h1.
          Outcome-bind IsTable (λ _. Keeping ns) _ _ _ st1
            (call-Outcome _ _ _ _ st1 h1.0 (λ _ q g. (g, h1.1)))
            (λ _ st2 h2.
              Outcome-bind IsTable (λ _. Keeping ns) _ _ _ st2
                (call-Outcome _ _ _ _ st2 h2.0 (λ _ q g. (g, h2.1)))
                (λ drain st3 h3. init_client-Outcome ns base drain st3 h3)))

  more-clients :
      (i id : String) (c : DrainClientInfo) (cs : List (String × DrainClientInfo))
      → has_client i cs ≡ true
      → has_client i ((id, c) ∷ cs) ≡ true
  unfolding has_client
  more-clients i id c cs h = or_true (id == i) (has_client i cs) h

  pub register-Outcome :
      (ns : List String) (base : String) (info : PluginInfo) (st : Tables)
      → Made ns base info st
      → Outcome IsTable (λ _. Keeping (base ∷ ns)) (register base info st)
  unfolding register look add_client has_client
  register-Outcome ns base info st h =
      Outcome-if IsTable _ (has_client info.id st.drain_clients) _ _ st
        (λ e. Outcome-fail IsTable _ _ st h.0.0)
        (λ e. (
          (
            (e, h.0.0.0),
            ((refl, h.1), h.0.0.1),
            (
              rw (eq_iff info.id info.id).1 refl,
              All-map _ _
                  (λ k q.
                    more-clients k.1 info.id (record { client = base; info = info })
                      st.drain_clients q)
                  st.plugin_file_id h.0.0.2,
            ),
          ),
          ap (λ xs. base ∷ xs) h.0.1,
        ))
