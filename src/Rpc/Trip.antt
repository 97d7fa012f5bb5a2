-- ===== src/Rpc/Trip.antt =====
-- api/plugins/drain-client.go and drain-server.go: calls from the one end to the other.
use node_drain.Base.{String, ◌≡◌, refl, ◌∙◌, ap, fun_ext, Error, Result, ok, err, Exec, pure, ◌>>=◌}
use node_drain.Rpc.{DrainPlugin, serve, connect}

-- A call whose errors are replaced, as gRPC wraps a handler's error in a status.
abbrev pub with_status : {A : Type 0} → (Error → Error) → Result A → Result A
with_status status (ok a) = ok a
with_status status (err e) = err (status e)

abbrev pub relabel : {S A : Type 0} → (Error → Error) → Exec S A → Exec S A
relabel status m s = (with_status status (m s).0, (m s).1)

module _ {S A B : Type 0} (status : Error → Error) (f : A → B) (g : B → A)
    (inverse : (a : A) → g (f a) ≡ a) where
  trip_at :
      (r : Result A) (s : S)
      → (do b ← relabel status (do a ← (λ t. (r, t)); pure (f a)); pure (g b)) s
        ≡ (with_status status r, s)
  unfolding ◌>>=◌
  trip_at (ok a) s = ap (λ x. (ok x, s)) (inverse a)
  trip_at (err e) s = refl

  trip :
      (m : Exec S A) → (do b ← relabel status (do a ← m; pure (f a)); pure (g b)) ≡ relabel status m
  unfolding ◌>>=◌
  trip m = fun_ext λ s. trip_at (m s).0 (m s).1

whole_at :
    {S : Type 0} (status : Error → Error) (r : Result (Unit {0})) (s : S)
    → (do _ ← relabel status (λ t. (r, t)); pure tt) s ≡ (with_status status r, s)
unfolding ◌>>=◌
whole_at status (ok _) s = refl
whole_at status (err e) s = refl

whole :
    {S : Type 0} (status : Error → Error) (m : Exec S (Unit {0}))
    → (do _ ← relabel status m; pure tt) ≡ relabel status m
unfolding ◌>>=◌
whole status m = fun_ext λ s. whole_at status (m s).0 (m s).1

module _ {S : Type 0} (deliver : (A : Type 0) → Exec S A → Exec S A) (status : Error → Error)
    (delivers : (A : Type 0) (m : Exec S A) → deliver A m ≡ relabel status m) where
  delivered :
      {A B : Type 0} (f : A → B) (g : B → A)
      → ((a : A) → g (f a) ≡ a)
      → (m : Exec S A) → (do b ← deliver B (do a ← m; pure (f a)); pure (g b)) ≡ relabel status m
  delivered {A} {B} f g inverse m =
      ap (λ (x : Exec S B). do b ← x; pure (g b)) (delivers B (do a ← m; pure (f a)))
      ∙ trip status f g inverse m

  delivered_whole : (m : Exec S (Unit {0})) → (do _ ← deliver _ m; pure tt) ≡ relabel status m
  delivered_whole m =
      ap (λ (x : Exec S (Unit {0})). do _ ← x; pure tt) (delivers _ m) ∙ whole status m

  -- A client connected to the server of a plugin does what the plugin does, with the state that the
  -- plugin leaves and the plugin's errors as the transport wraps them, if the transport runs the
  -- handler once and only wraps its error.
  pub connect-serve :
      (p : DrainPlugin S)
      → ((connect deliver (serve p)).plugin_info ≡ relabel status p.plugin_info)
        × ((c : String) → (connect deliver (serve p)).init c ≡ relabel status (p.init c))
        × ((connect deliver (serve p)).is_supported ≡ relabel status p.is_supported)
        × ((connect deliver (serve p)).is_healthy ≡ relabel status p.is_healthy)
        × ((n : String)
            → (connect deliver (serve p)).is_drain_ok n ≡ relabel status (p.is_drain_ok n))
        × ((n : String) → (connect deliver (serve p)).pre_drain n ≡ relabel status (p.pre_drain n))
        × ((n : String)
            → (connect deliver (serve p)).post_drain n ≡ relabel status (p.post_drain n))
  unfolding connect serve ◌>>=◌
  connect-serve p = (
    delivered _ _ (λ a. refl) p.plugin_info,
    λ c. delivered_whole (p.init c),
    delivered _ _ (λ a. refl) p.is_supported,
    delivered _ _ (λ a. refl) p.is_healthy,
    λ n. delivered _ _ (λ a. refl) (p.is_drain_ok n),
    λ n. delivered_whole (p.pre_drain n),
    λ n. delivered_whole (p.post_drain n),
  )
