-- ===== src/Controllers/Clusters/Laws.antt =====
-- Which calls of the API a cycle of the cluster controller makes, if it comes to its end.
use oneinfra.Base.{
  ℕ, zero, suc, ◌+◌, ◌-◌, ◌<◌, ◌≡◌, refl, sym, ap, ◌∙◌, subst, inl, inr, Option, none, some, [],
  ◌∷◌, arith, ltb, eqb, if◌then◌else◌, Bool-cases, length,
}
use oneinfra.Base.Errors.{Error, ok, ok_inj}
use oneinfra.Base.Actions.{err_ne_ok}
use oneinfra.Base.Integers.{ℤ, pos, negsuc}
use oneinfra.Controllers.Clusters.{
  Ending, at_end, call_failed, out_of_range, scale_control_plane, is_nil,
  control_plane_ingress_role, ingress_of, control_plane_role, undeleted, no_requeue, ended,
  reconcile_ingress, then_ingress, control_plane_of, ClusterReplicas, from_component, delete_loop,
  reconcile_control_plane, create_loop, Component, next, Codecs, ComponentList, Client, reconcile,
}

-- The first elements of a list.
abbrev pub first : ℕ → ComponentList → ComponentList
first zero l = []
first (suc i) [] = []
first (suc i) (c ∷ l) = c ∷ first i l

module _ {W : Type 0} (client : Client W) (codecs : Codecs) where
  -- So many creations of one component, one after the other, of which none fails.
  pub data Creates (c : Component) : ℕ → W → W → Type 0 where
    none_created : {w : W} → Creates c 0 w w
    creates :
        {i : ℕ} {w w' : W}
        → (client.create_component (from_component codecs c) w).1 ≡ none
        → Creates c i (client.create_component (from_component codecs c) w).0 w'
        → Creates c (suc i) w w'

  -- The deletions of the components of a list, in their order, of which none fails.
  pub data Deletes : ComponentList → W → W → Type 0 where
    none_deleted : {w : W} → Deletes [] w w
    deletes :
        {c : Component} {l : ComponentList} {w w' : W}
        → (client.delete_component (from_component codecs c) w).1 ≡ none
        → Deletes l (client.delete_component (from_component codecs c) w).0 w'
        → Deletes (c ∷ l) w w'

  next-at_end :
      (r : W × Option Error) (rest : W → W × Ending)
      → (next client codecs r rest).1 ≡ at_end
      → (r.1 ≡ none) × (next client codecs r rest ≡ rest r.0)
  next-at_end (w, none) rest h = (refl, refl)
  next-at_end (w, some e) rest h = cc

  create_loop-Creates :
      (i : ℕ) (c : Component) (w : W)
      → (create_loop client codecs i c w).1 ≡ at_end
      → Creates c i w (create_loop client codecs i c w).0
  unfolding create_loop
  create_loop-Creates zero c w h = none_created
  create_loop-Creates (suc i) c w h =
      let r = client.create_component (from_component codecs c) w in
      let (a, b) = next-at_end r (create_loop client codecs i c) h in
      creates a (
        subst (λ z. Creates c i r.0 z.0) (sym b)
          (create_loop-Creates i c r.0 (ap (λ z. z.1) (sym b) ∙ h)))

  delete_loop-Deletes :
      (i : ℕ) (l : ComponentList) (w : W)
      → (delete_loop client codecs i l w).1 ≡ at_end
      → Deletes (first i l) w (delete_loop client codecs i l w).0
  unfolding delete_loop
  delete_loop-Deletes zero l w h = none_deleted
  delete_loop-Deletes (suc i) [] w h = cc
  delete_loop-Deletes (suc i) (c ∷ l) w h =
      let r = client.delete_component (from_component codecs c) w in
      let (a, b) = next-at_end r (delete_loop client codecs i l) h in
      deletes a (
        subst (λ z. Deletes (first i l) r.0 z.0) (sym b)
          (delete_loop-Deletes i l r.0 (ap (λ z. z.1) (sym b) ∙ h)))

  -- The creations that are missing for `desired` replicas, and then the deletions of the first
  -- replicas that are too many. There are none for a negative number.
  abbrev pub Scales : ℤ → Component → ComponentList → W → W → Type 0
  Scales (negsuc n) c replicas w w' = ⊥
  Scales (pos desired) c replicas w w' =
      (v : W) × Creates c (desired - length replicas) w v
      × Deletes (first (length replicas - desired) replicas) v w'

  Creates-none : (k : ℕ) (c : Component) (w : W) → k ≡ 0 → Creates c k w w
  Creates-none k c w e = subst (λ i. Creates c i w w) (sym e) none_created

  Deletes-none : (k : ℕ) (l : ComponentList) (w : W) → k ≡ 0 → Deletes (first k l) w w
  Deletes-none k l w e = subst (λ i. Deletes (first i l) w w) (sym e) none_deleted

  -- To delete more than there is does not come to its end.
  delete_loop-short :
      (i : ℕ) (l : ComponentList) (w : W)
      → length l < i
      → (delete_loop client codecs i l w).1 ≡ at_end
      → ⊥
  unfolding delete_loop
  delete_loop-short zero l w short h = omega (arith, short)
  delete_loop-short (suc i) [] w short h = cc
  delete_loop-short (suc i) (c ∷ l) w short h =
      let r = client.delete_component (from_component codecs c) w in
      let (a, b) = next-at_end r (delete_loop client codecs i l) h in
      delete_loop-short i l r.0 (omega (arith, short)) (ap (λ z. z.1) (sym b) ∙ h)

  scale_control_plane-Scales :
      (desired : ℤ) (c : Component) (l : ComponentList) (w : W)
      → (scale_control_plane client codecs desired c l w).1 ≡ at_end
      → Scales desired c l w (scale_control_plane client codecs desired c l w).0
  scale_control_plane-Scales (negsuc n) c l w h =
      delete_loop-short (length l + suc n) l w (omega arith) h
  scale_control_plane-Scales (pos d) c l w h = elim (Bool-cases (ltb (length l) d)) [
    | inl e ↦ rw e (
      (create_loop client codecs (d - length l) c w).0,
      create_loop-Creates (d - length l) c w (rw e at h),
      Deletes-none (length l - d) l _ (ground (arith, e)),
    )
    | inr e ↦ rw e (
      w,
      Creates-none (d - length l) c w (ground (arith, e)),
      delete_loop-Deletes (length l - d) l w (rw e at h),
    )
  ]

  reconcile_control_plane-Scales :
      (cluster : ClusterReplicas) (l : ComponentList) (w : W)
      → (reconcile_control_plane client codecs cluster l w).1 ≡ at_end
      → Scales cluster.control_plane_replicas
          (control_plane_of client codecs cluster)
          l
          w
          (reconcile_control_plane client codecs cluster l w).0
  unfolding reconcile_control_plane
  reconcile_control_plane-Scales cluster l w h =
      scale_control_plane-Scales cluster.control_plane_replicas
        (control_plane_of client codecs cluster) l w h

  reconcile_ingress-Scales :
      (cluster : ClusterReplicas) (l : ComponentList) (w : W)
      → (reconcile_ingress client codecs cluster l w).1 ≡ at_end
      → Scales
          (pos 1)
          (ingress_of client codecs cluster)
          l
          w
          (reconcile_ingress client codecs cluster l w).0
  unfolding reconcile_ingress
  reconcile_ingress-Scales cluster l w h =
      let c = ingress_of client codecs cluster in
      elim (Bool-cases (eqb (length l) 0)) [
        | inl e ↦ rw e (
          (create_loop client codecs 1 c w).0,
          subst (λ i. Creates c i w (create_loop client codecs 1 c w).0) (ground (arith, e))
              (create_loop-Creates 1 c w (rw e at h)),
          Deletes-none (length l - 1) l _ (ground (arith, e)),
        )
        | inr e ↦ elim (Bool-cases (ltb 1 (length l))) [
          | inl f ↦
              rw (e, f)
                (
                  w,
                  Creates-none (1 - length l) c w (ground (arith, f)),
                  delete_loop-Deletes (length l - 1) l w (rw (e, f) at h),
                )
          | inr f ↦
              rw (e, f)
                (
                  w,
                  Creates-none (1 - length l) c w (ground (arith, e, f)),
                  Deletes-none (length l - 1) l w (ground (arith, e, f)),
                )
        ]
      ]

  -- What a cycle for a cluster that is not being deleted comes to.
  abbrev pub Scaled : ClusterReplicas → ComponentList → W → W → Type 0
  Scaled cluster components w w' =
      (v : W) × Scales cluster.control_plane_replicas (control_plane_of client codecs cluster)
        (undeleted control_plane_role components) w v
      × Scales (pos 1) (ingress_of client codecs cluster)
          (undeleted control_plane_ingress_role components) v w'

  then_ingress-Scaled :
      (cluster : ClusterReplicas) (components : ComponentList) (w : W) (r : W × Ending)
      → Scales cluster.control_plane_replicas
          (control_plane_of client codecs cluster)
          (undeleted control_plane_role components)
          w
          r.0
      → (then_ingress client codecs cluster components r).1 ≡ at_end
      → Scaled cluster components w (then_ingress client codecs cluster components r).0
  then_ingress-Scaled cluster components w (v, call_failed) s h = cc
  then_ingress-Scaled cluster components w (v, out_of_range) s h = cc
  then_ingress-Scaled cluster components w (v, at_end) s h =
      (v, s, reconcile_ingress-Scales cluster (undeleted control_plane_ingress_role components) v h)

  first_at_end :
      (cluster : ClusterReplicas) (components : ComponentList) (r : W × Ending)
      → (then_ingress client codecs cluster components r).1 ≡ at_end
      → r.1 ≡ at_end
  first_at_end cluster components (v, at_end) h = refl
  first_at_end cluster components (v, call_failed) h = cc
  first_at_end cluster components (v, out_of_range) h = cc

  ended-at_end :
      (r : W × Ending)
      → (ended client codecs r).1 ≡ ok no_requeue
      → (r.1 ≡ at_end) × ((ended client codecs r).0 ≡ r.0)
  ended-at_end (w, at_end) h = (refl, refl)
  ended-at_end (w, call_failed) h = absurd (ground (arith, ap (λ z. z.requeue_after) (ok_inj h)))
  ended-at_end (w, out_of_range) h = absurd (err_ne_ok _ _ h)

  -- If a cycle for a cluster that is not being deleted returns and does not ask for another one, the
  -- number of replicas that the cluster asks for is not negative, and the cycle has made these calls,
  -- none of which failed: the creations that its control plane lacks, or the deletions of as many of
  -- its undeleted control plane components as are too many, and the same for one ingress.
  pub reconcile-Scaled :
      (cluster : ClusterReplicas) (components : ComponentList) (w : W)
      → cluster.deletion_timestamp ≡ none
      → (reconcile client codecs cluster components w).1 ≡ ok no_requeue
      → Scaled cluster components w (reconcile client codecs cluster components w).0
  unfolding reconcile
  reconcile-Scaled cluster components w e h =
      let r =
        reconcile_control_plane client codecs cluster (undeleted control_plane_role components) w in
      let live = then_ingress client codecs cluster components r in
      let gone = delete_loop client codecs (length components) components w in
      let chosen = ap (λ o. if is_nil o then live else gone) e in
      let (a, b) = ended-at_end live (ap (λ z. (ended client codecs z).1) (sym chosen) ∙ h) in
      subst (Scaled cluster components w) (sym (ap (λ z. (ended client codecs z).0) chosen ∙ b)) (
        then_ingress-Scaled cluster components w r
          (reconcile_control_plane-Scales cluster (undeleted control_plane_role components) w
            (first_at_end cluster components r a))
          a)

  first-length : (l : ComponentList) → first (length l) l ≡ l
  first-length [] = refl
  first-length (c ∷ l) = ap (λ z. c ∷ z) (first-length l)

  -- If a cycle for a cluster that is being deleted returns and does not ask for another one, it has deleted
  -- every component of the cluster.
  pub reconcile-Deletes :
      (cluster : ClusterReplicas) (components : ComponentList) (w : W) (t : ℕ)
      → cluster.deletion_timestamp ≡ some t
      → (reconcile client codecs cluster components w).1 ≡ ok no_requeue
      → Deletes components w (reconcile client codecs cluster components w).0
  unfolding reconcile
  reconcile-Deletes cluster components w t e h =
      let r =
        reconcile_control_plane client codecs cluster (undeleted control_plane_role components) w in
      let live = then_ingress client codecs cluster components r in
      let gone = delete_loop client codecs (length components) components w in
      let chosen = ap (λ o. if is_nil o then live else gone) e in
      let (a, b) = ended-at_end gone (ap (λ z. (ended client codecs z).1) (sym chosen) ∙ h) in
      subst (Deletes components w) (sym (ap (λ z. (ended client codecs z).0) chosen ∙ b)) (
        subst (λ l. Deletes l w gone.0) (first-length components)
          (delete_loop-Deletes (length components) components w a))
