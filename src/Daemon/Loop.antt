-- ===== src/Daemon/Loop.antt =====
-- The loop of main in src/server.c, one datagram at a time.
use pmu_roboflex.Prelude.{
  ◌≡◌, refl, Option, none, some, List, [], ◌∷◌, ◌++◌, Text, Option-cases, inl, inr, some_inj, subst,
  ◌∙◌,
}
use pmu_roboflex.Daemon.{CJson, Kernel, Daemon, handle_client_request, serve}

module _ {Node : Type 0} (cjson : CJson Node) (kernel : Kernel) where
  pub serve-cons :
      (r : Option Text) (received : List (Option Text)) (d m : Daemon)
      → handle_client_request cjson kernel r d ≡ some m
      → serve cjson kernel (r ∷ received) d ≡ serve cjson kernel received m
  unfolding serve
  serve-cons r received d m e = rw (e, serve) refl

  -- A run that goes on has taken its first datagram.
  pub serve-cons_inv :
      (r : Option Text) (received : List (Option Text)) (d d' : Daemon)
      → serve cjson kernel (r ∷ received) d ≡ some d'
      → (m : Daemon) × (handle_client_request cjson kernel r d ≡ some m)
        × (serve cjson kernel received m ≡ some d')
  unfolding serve
  serve-cons_inv r received d d' e = elim (Option-cases (handle_client_request cjson kernel r d)) [
    | inl n ↦ absurd (let bad : none ≡ some d' = rw (n, serve) at e in cc)
    | inr (m, f) ↦ (m, f, rw (f, serve) at e)
  ]

  pub serve-append :
      (xs ys : List (Option Text)) (d m : Daemon)
      → serve cjson kernel xs d ≡ some m
      → serve cjson kernel (xs ++ ys) d ≡ serve cjson kernel ys m
  serve-append [] ys d m e =
      let same : some d ≡ some m = unfold serve in e in
      subst (λ v. serve cjson kernel ys d ≡ serve cjson kernel ys v) (some_inj same) refl
  serve-append (x ∷ xs) ys d m e =
      let (n, f, g) = serve-cons_inv x xs d m e in
      serve-cons x (xs ++ ys) d n f ∙ serve-append xs ys n m g

  pub serve-one :
      (r : Option Text) (d m : Daemon)
      → handle_client_request cjson kernel r d ≡ some m
      → serve cjson kernel (r ∷ []) d ≡ some m
  serve-one r d m e = serve-cons r [] d m e ∙ (unfold serve in refl)
