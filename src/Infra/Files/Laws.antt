-- ===== src/Infra/Files/Laws.antt =====
-- What UploadFiles of internal/pkg/infra/hypervisor.go ensures of FileUpToDate.
use oneinfra.Base.Errors.{some_inj}
use oneinfra.Base.{
  ℕ, String, ◌≡◌, refl, ap, ◌∙◌, subst, inl, inr, Bool, true, false, none, some, List, [], ◌∷◌,
  arith, eq_refl, Bool-cases, All, All-mono,
}
use oneinfra.Dict
use oneinfra.Dict.{Dict, dict_laws, lookup-insert}
use oneinfra.Infra.Hypervisor.{FileMap, NamespacedClusterFileMap}
use oneinfra.Infra.Pods.{PodCodecs}
use oneinfra.Infra.Files.{
  upload_pod, run_and_wait_for_pod, tooling_image, upload_with_image, ensure_image, upload_files,
  Outcome, err, ok, upload_needed, record_uploaded, Host, Container, has_sum, Awaited,
  ContainerRuntime, files_to_upload, record_files, FileCodecs, Hypervisor, file_up_to_date,
  files_recorded, component_files, record_sums,
}

-- No key stands twice, as in a map.
abbrev pub UniqueKeys : Dict String → Type 0
UniqueKeys [] = Unit
UniqueKeys ((key, value) ∷ rest) = (Dict.has key rest ≡ false) × UniqueKeys rest

module _ (codecs : PodCodecs) (cluster_namespace cluster_name component_name : String) where
  record_sums-other :
      (path : String) (sums : FileMap) (files : Dict String)
      → Dict.has path files ≡ false
      → Dict.lookup path
          (record_sums codecs cluster_namespace cluster_name component_name sums files)
        ≡ Dict.lookup path sums
  unfolding record_sums Dict.has
  record_sums-other path sums [] h = refl
  record_sums-other path sums ((first, contents) ∷ files) h =
      let sums' : FileMap = Dict.insert first (codecs.sha1_hex contents) sums in
      ground (
        arith,
        record_sums-other path sums' files,
        lookup-insert first path (codecs.sha1_hex contents) sums,
      )

  record_sums-all :
      (sums : FileMap) (files : Dict String)
      → UniqueKeys files
      → All
          (λ (f : String × String).
            Dict.lookup f.0
              (record_sums codecs cluster_namespace cluster_name component_name sums files)
            ≡ some (codecs.sha1_hex f.1))
          files
  unfolding record_sums
  record_sums-all sums [] u = tt
  record_sums-all sums ((path, contents) ∷ files) u =
      let sums' : FileMap = Dict.insert path (codecs.sha1_hex contents) sums in
      (
        record_sums-other path sums' files u.0
            ∙ lookup-insert path path (codecs.sha1_hex contents) sums
            ∙ ground (arith, eq_refl path),
        record_sums-all sums' files u.1,
      )

  component_files-recorded :
      (files : Dict String) (known : NamespacedClusterFileMap)
      → component_files codecs cluster_namespace cluster_name component_name
          (some (files_recorded codecs cluster_namespace cluster_name component_name files known))
        ≡ record_sums codecs cluster_namespace cluster_name component_name
            (component_files codecs cluster_namespace cluster_name component_name (some known))
            files
  component_files-recorded files known = simp (dict_laws, eq_refl)

  abbrev pub IsCurrent : Hypervisor → String × String → Type 0
  IsCurrent hypervisor file =
      file_up_to_date codecs cluster_namespace cluster_name component_name hypervisor file.0 file.1
      ≡ true

  recorded-IsCurrent :
      (hypervisor : Hypervisor) (files : Dict String) (known : NamespacedClusterFileMap)
      → UniqueKeys files
      → hypervisor.files ≡ some known
      → All
          (IsCurrent (record hypervisor {
            files =
                record_files codecs cluster_namespace cluster_name component_name files
                  hypervisor.files;
          }))
          files
  unfolding file_up_to_date
  recorded-IsCurrent hypervisor files known u e =
      let sums : FileMap =
        component_files codecs cluster_namespace cluster_name component_name (some known) in
      All-mono _ _ files
        (λ (f : String × String)
            (h : Dict.lookup f.0
                (record_sums codecs cluster_namespace cluster_name component_name sums files)
              ≡ some (codecs.sha1_hex f.1)).
          let at : FileMap → Bool = λ s.
            has_sum codecs cluster_namespace cluster_name component_name (Dict.lookup f.0 s)
              (codecs.sha1_hex f.1) in
          ap
            (λ z. at (
              component_files codecs cluster_namespace cluster_name component_name
                (record_files codecs cluster_namespace cluster_name component_name files z)))
            e
          ∙ ap at (component_files-recorded files known)
          ∙ ap
              (λ z.
                has_sum codecs cluster_namespace cluster_name component_name z
                  (codecs.sha1_hex f.1))
              h
          ∙ eq_refl (codecs.sha1_hex f.1))
        (record_sums-all sums files u)

  module _ (file_codecs : FileCodecs) where
    none_to_upload :
        (hypervisor : Hypervisor) (files : Dict String)
        → files_to_upload codecs cluster_namespace cluster_name component_name file_codecs
            hypervisor files
          ≡ []
        → All (IsCurrent hypervisor) files
    unfolding files_to_upload
    none_to_upload hypervisor [] e = tt
    none_to_upload hypervisor ((path, contents) ∷ files) e =
        elim (Bool-cases (
          file_up_to_date codecs cluster_namespace cluster_name component_name hypervisor path
            contents)) [
              | inl now ↦ (now, none_to_upload hypervisor files (ground (arith, now, e)))
              | inr later ↦ absurd (ground (arith, later, e))
            ]

    all-IsCurrent :
        (hypervisor : Hypervisor) (files : Dict String)
        → All (IsCurrent hypervisor) files
        → files_to_upload codecs cluster_namespace cluster_name component_name file_codecs
            hypervisor files
          ≡ []
    unfolding files_to_upload
    all-IsCurrent hypervisor [] h = refl
    all-IsCurrent hypervisor ((path, contents) ∷ files) h =
        ground (arith, h.0, all-IsCurrent hypervisor files h.1)

    module _ {W : Type 0} (cri : ContainerRuntime W) (rounds : ℕ) where
      record_uploaded-files :
          (files : Dict String) (hypervisor end : Hypervisor) (a : Awaited W) (host : Host W)
          → record_uploaded codecs cluster_namespace cluster_name component_name file_codecs cri
              rounds files hypervisor a
            ≡ some (ok tt, end, host)
          → record hypervisor {
            files =
                record_files codecs cluster_namespace cluster_name component_name files
                  hypervisor.files;
          }
            ≡ end
      record_uploaded-files files hypervisor end none host e = absurd (ground (arith, e))
      record_uploaded-files files hypervisor end (some (err x, h)) host e =
          absurd (ground (arith, e))
      record_uploaded-files files hypervisor end (some (ok u, h)) host e =
          ap (λ z. z.1) (some_inj e)

      upload_with_image-files :
          (files : Dict String) (l : List Container) (hypervisor end : Hypervisor)
          → (r : Outcome × Host W) (host : Host W)
          → upload_with_image codecs cluster_namespace cluster_name component_name file_codecs cri
              rounds files l hypervisor r
            ≡ some (ok tt, end, host)
          → record hypervisor {
            files =
                record_files codecs cluster_namespace cluster_name component_name files
                  hypervisor.files;
          }
            ≡ end
      upload_with_image-files files l hypervisor end (err x, h) host e = absurd (ground (arith, e))
      upload_with_image-files files l hypervisor end (ok u, h) host e =
          record_uploaded-files files hypervisor end
            (run_and_wait_for_pod cri codecs cluster_namespace cluster_name component_name rounds
              (upload_pod codecs cluster_namespace cluster_name component_name file_codecs l) h)
            host e

      upload_needed-IsCurrent :
          (files : Dict String) (l : List Container) (hypervisor end : Hypervisor)
          (start host : Host W)
          → (known : NamespacedClusterFileMap) → UniqueKeys files
          → hypervisor.files ≡ some known
          → (l ≡ [] → All (IsCurrent hypervisor) files)
          → upload_needed codecs cluster_namespace cluster_name component_name file_codecs cri
              rounds files l hypervisor start
            ≡ some (ok tt, end, host)
          → All (IsCurrent end) files
      upload_needed-IsCurrent files [] hypervisor end start host known u k f e =
          subst (λ z. All (IsCurrent z) files) (ap (λ z. z.1) (some_inj e)) (f refl)
      upload_needed-IsCurrent files (c ∷ l) hypervisor end start host known u k f e =
          subst (λ z. All (IsCurrent z) files)
            (upload_with_image-files files (c ∷ l) hypervisor end
              (ensure_image cri tooling_image start) host e)
            (recorded-IsCurrent hypervisor files known u k)

      -- If UploadFiles succeeds within some number of rounds, on a hypervisor that keeps the sums of
      -- its files and with no path given twice, then FileUpToDate holds of every file that it was
      -- called with.
      pub upload_files-IsCurrent :
          (files : Dict String) (hypervisor end : Hypervisor) (start host : Host W)
          → (known : NamespacedClusterFileMap) → UniqueKeys files
          → hypervisor.files ≡ some known
          → upload_files codecs cluster_namespace cluster_name component_name file_codecs cri rounds
              files hypervisor start
            ≡ some (ok tt, end, host)
          → All (IsCurrent end) files
      unfolding upload_files
      upload_files-IsCurrent files hypervisor end start host known u k =
          upload_needed-IsCurrent files
            (files_to_upload codecs cluster_namespace cluster_name component_name file_codecs
              hypervisor files)
            hypervisor end start host known u k (none_to_upload hypervisor files)

      -- An upload is done once: after UploadFiles has succeeded within some number of rounds, on a
      -- hypervisor that keeps the sums of its files and with no path given twice, to upload the same
      -- files again succeeds at once, and changes neither the hypervisor nor what is behind it.
      pub upload_files_twice :
          (files : Dict String) (hypervisor end : Hypervisor) (start host later : Host W)
          → (known : NamespacedClusterFileMap) → UniqueKeys files
          → hypervisor.files ≡ some known
          → upload_files codecs cluster_namespace cluster_name component_name file_codecs cri rounds
              files hypervisor start
            ≡ some (ok tt, end, host)
          → upload_files codecs cluster_namespace cluster_name component_name file_codecs cri rounds
              files end later
            ≡ some (ok tt, end, later)
      unfolding upload_files
      upload_files_twice files hypervisor end start host later known u k e =
          ap
            (λ z.
              upload_needed codecs cluster_namespace cluster_name component_name file_codecs cri
                rounds files z end later)
            (all-IsCurrent end files
              (upload_files-IsCurrent files hypervisor end start host known u k e))
