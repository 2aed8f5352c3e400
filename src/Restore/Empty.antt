-- ===== src/Restore/Empty.antt =====
-- A restore without objects to choose from.
use tsdb_operator.Base.{
  String, Option, List, take, [], true, ◌==◌, eq_iff, ◌≡◌, ◌≢◌, refl, ap, ◌∙◌, ok, arith, pure,
  wrapping, Bool-cases, inl, inr,
}
use tsdb_operator.Base.Hoare.{
  Keeps, Yields, bind-Yields, bind-Keeps, bind-stops, if-Keeps, if-Yields,
}
use tsdb_operator.Restore.{Object, latest, latest_key}
use tsdb_operator.Restore.Downloads.{MachineLaws, latest_key-Yields}
use tsdb_operator.Restore.Command.{
  Options, S3Flags, Machine, client, chosen, resolve, save, restore,
}

module _ {Aws S3 File Body W : Type 0} (m : Machine Aws S3 File Body W) {Content : Type 0}
    (listing : (bucket prefix : String) → List Object)
    (remote : (bucket key : String) → Option Content) (files : W → String → Option Content)
    (path_of : File → String) (content_of : Body → Content) where
  module _ (laws : MachineLaws m listing remote files path_of content_of) where
    client-Keeps :
        (f : S3Flags) (g : String → Option Content) → Keeps (λ w. files w ≡ g) (client m f)
    unfolding client
    client-Keeps f g w h = elim (Bool-cases (f.bucket == "")) [
      | inl e ↦ rw e h
      | inr e ↦ rw e (
          bind-Keeps (λ w. files w ≡ g) (wrapping "load aws config" (m.load_aws_config f.region)) _
            (λ w h. laws.loads f.region w ∙ h) (λ a w h. h) w h)
    ]

    resolve-Keeps :
        (s3 : S3) (o : Options) (g : String → Option Content)
        → Keeps (λ w. files w ≡ g) (resolve m s3 o)
    unfolding resolve latest_key
    resolve-Keeps s3 o g =
        let same : W → Type 0 = λ w. files w ≡ g in
        if-Keeps same (o.key == "") _ _
          (bind-Keeps same (latest_key (m.list_objects s3) o.flags.bucket o.flags.prefix)
            (chosen m o.flags)
            (bind-Keeps same
              (wrapping "list objects" (m.list_objects s3 o.flags.bucket o.flags.prefix))
              (λ objects. pure (latest ("", "") objects))
              (λ w h. laws.lists_only s3 o.flags.bucket o.flags.prefix w ∙ h) (λ os w h. h))
            (λ key. if-Keeps same (key == "") _ _ (λ w h. h) (λ w h. h)))
          (λ w h. h)

    chosen-never : (f : S3Flags) (key : String) → Yields (λ _. key ≡ "") (chosen m f key) (λ _ _. ⊥)
    chosen-never f key w no_key k w' q =
        let is_empty : (key == "") ≡ true = ground (arith, eq_iff key "") in
        let thrown = rw is_empty at q in cc

    resolve-never :
        (s3 : S3) (o : Options)
        → o.key ≡ ""
        → listing o.flags.bucket o.flags.prefix ≡ []
        → Yields (λ _. Unit) (resolve m s3 o) (λ _ _. ⊥)
    unfolding resolve latest
    resolve-never s3 o none_given empty =
        if-Yields _ (o.key == "") _ _ _
          (λ e.
            bind-Yields (λ _. Unit) (latest_key (m.list_objects s3) o.flags.bucket o.flags.prefix)
              (λ key _. key ≡ "") (chosen m o.flags) _
              (λ w u key w' q.
                latest_key-Yields m listing remote files path_of content_of laws s3 o.flags w u key
                  w' q
                ∙ ap (λ os. latest ("", "") (take 1000 os)) empty)
              (λ key. chosen-never o.flags key))
          (λ e. absurd (ground (arith, eq_iff o.key "")))

    -- Without a key and without objects under the prefix, a restore fails, and leaves the files as they
    -- were.
    pub restore-empty :
        (o : Options) (w : W)
        → o.key ≡ ""
        → listing o.flags.bucket o.flags.prefix ≡ []
        → (files (restore m o w).1 ≡ files w) × ((restore m o w).0 ≢ ok tt)
    unfolding restore
    restore-empty o w none_given empty =
        let same : W → Type 0 = λ v. files v ≡ files w in
        (
          bind-Keeps same (client m o.flags) _ (client-Keeps o.flags (files w))
              (λ s3 v h.
                (bind-stops same (resolve m s3 o) (save m s3 o) (resolve-Keeps s3 o (files w))
                  (λ v h key v' q. resolve-never s3 o none_given empty v tt key v' q) v h).0)
              w refl,
          λ q.
              bind-Yields (λ _. Unit) (client m o.flags) (λ _ _. Unit) _ (λ _ _. ⊥)
                (λ w u a w' q. tt)
                (λ s3.
                  bind-Yields (λ _. Unit) (resolve m s3 o) (λ _ _. ⊥) (save m s3 o) _
                    (resolve-never s3 o none_given empty) (λ key v bad a v' p. bad))
                w tt tt (restore m o w).1 (ap (λ x. (x, (restore m o w).1)) q),
        )
