-- ===== src/Infra/Pods/Images.antt =====
-- EnsureImage and EnsureImages of internal/pkg/infra/hypervisor.go.
use oneinfra.Infra.Pods.Calls.{cri_image-Keeps, call-Keeps, call-ensures}
use oneinfra.Base.{String, ◌≡◌, refl, Bool, true, false, List, [], ◌∷◌, All}
use oneinfra.Base.Errors.{ok, Exec}
use oneinfra.Base.Actions.{>>=-Ensures, >>=-Keeps, Keeps, Ensures, pure, ◌>>=◌}
use oneinfra.Infra.Pods.{ContainerRuntime, Host, call, cri_image}

module _ {W : Type 0} (cri : ContainerRuntime W) where
  -- if imageStatus.Image == nil { _, err = criImage.PullImage(…); return err }
  abbrev pub pull_if_missing : String → Bool → Exec (Host W) Unit
  pull_if_missing image true = pure tt
  pull_if_missing image false = call (cri.pull_image image)

  unfoldable pub ensure_image : String → Exec (Host W) Unit
  unfolding cri_image
  ensure_image image = do
    client ← cri_image cri
    present ← call (cri.image_status image)
    pull_if_missing image present

  unfoldable pub ensure_images : List String → Exec (Host W) Unit
  unfolding ensure_image
  ensure_images [] = pure tt
  ensure_images (image ∷ images) = ensure_image image >>= λ done. ensure_images images

-- What the code relies on: an image that the runtime reports, or has pulled, is present, and none of
-- the calls that ensure images removes one.
pub record ImageLaws {W : Type 0} (cri : ContainerRuntime W) : Type 1 where
  pub Present : String → W → Type 0
  pub reported :
      (i : String) → Ensures (λ w. Unit) (cri.image_status i) (λ b w. b ≡ true → Present i w)
  pub pulled : (i : String) → Ensures (λ w. Unit) (cri.pull_image i) (λ u w. Present i w)
  pub connection_keeps : (j : String) → Keeps (Present j) cri.connection
  pub status_keeps : (i j : String) → Keeps (Present j) (cri.image_status i)
  pub pull_keeps : (i j : String) → Keeps (Present j) (cri.pull_image i)

module _ {W : Type 0} (cri : ContainerRuntime W) (laws : ImageLaws cri) where
  abbrev pub PresentOn : String → Host W → Type 0
  PresentOn i host = laws.Present i host.world

  pull_if_missing-Keeps : (i j : String) (b : Bool) → Keeps (PresentOn j) (pull_if_missing cri i b)
  pull_if_missing-Keeps i j true = λ host p. p
  pull_if_missing-Keeps i j false =
      call-Keeps (laws.Present j) (cri.pull_image i) (laws.pull_keeps i j)

  ensure_image-Keeps : (i j : String) → Keeps (PresentOn j) (ensure_image cri i)
  unfolding ensure_image
  ensure_image-Keeps i j =
      >>=-Keeps (PresentOn j) (cri_image cri) _
        (cri_image-Keeps cri (laws.Present j) (laws.connection_keeps j))
        λ u.
          >>=-Keeps (PresentOn j) (call (cri.image_status i)) _
            (call-Keeps (laws.Present j) (cri.image_status i) (laws.status_keeps i j))
            λ b. pull_if_missing-Keeps i j b

  ensure_images-Keeps : (l : List String) (j : String) → Keeps (PresentOn j) (ensure_images cri l)
  unfolding ensure_images
  ensure_images-Keeps [] j = λ host p. p
  ensure_images-Keeps (i ∷ l) j =
      >>=-Keeps (PresentOn j) (ensure_image cri i) _ (ensure_image-Keeps i j)
        λ u. ensure_images-Keeps l j

  abbrev Always : Host W → Type 0
  Always host = Unit

  -- A report that the image is there is right, also if nothing is pulled.
  pull_if_missing-ensures :
      (i : String) (b : Bool)
      → Ensures (λ host. b ≡ true → PresentOn i host) (pull_if_missing cri i b) (λ u. PresentOn i)
  pull_if_missing-ensures i true = λ host p u e. p refl
  pull_if_missing-ensures i false = λ host p.
      call-ensures (λ w. Unit) (λ u. laws.Present i) (cri.pull_image i) (laws.pulled i) host tt

  ensure_image-ensures : (i : String) → Ensures Always (ensure_image cri i) (λ u. PresentOn i)
  unfolding ensure_image
  ensure_image-ensures i =
      >>=-Ensures Always (λ u. Always) (λ u. PresentOn i) (cri_image cri) _ (λ host p u e. tt)
        λ u.
          >>=-Ensures Always (λ b host. b ≡ true → PresentOn i host) (λ u. PresentOn i)
            (call (cri.image_status i)) _
            (call-ensures (λ w. Unit) (λ b w. b ≡ true → laws.Present i w) (cri.image_status i)
              (laws.reported i))
            (pull_if_missing-ensures i)

  images_present :
      (l : List String)
      → Ensures Always (ensure_images cri l) (λ u host. All (λ i. PresentOn i host) l)
  unfolding ensure_images
  images_present [] = λ host p u e. tt
  images_present (i ∷ l) =
      >>=-Ensures Always (λ u. PresentOn i) (λ u host. All (λ j. PresentOn j host) (i ∷ l))
        (ensure_image cri i) _ (ensure_image-ensures i)
        λ u host p v e. (ensure_images-Keeps l i host p, images_present l host tt v e)

  -- If EnsureImages succeeds, every image that it was called with is present on the hypervisor,
  -- where the runtime tells the truth about the images it has, a pull that succeeds leaves its image
  -- there, and no call removes an image.
  pub ensure_images-Present :
      (images : List String) (host : Host W)
      → (ensure_images cri images host).0 ≡ ok tt
      → All (λ i. laws.Present i (ensure_images cri images host).1.world) images
  ensure_images-Present images host = images_present images host tt tt
