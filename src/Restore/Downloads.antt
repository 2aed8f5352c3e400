-- ===== src/Restore/Downloads.antt =====
-- What a restore that succeeds has written, and what one without objects has not.
use tsdb_operator.Base.{
  String, Option, some, List, take, [], ◌∷◌, ◌==◌, eq_iff, ◌≡◌, ◌≢◌, ◌⊎◌, Action, refl, sym, ap,
  ◌∙◌, subst, Any, ok, arith, modify, wrapping, ◌>>=◌, inl, inr,
}
use tsdb_operator.Base.Hoare.{
  Yields, bind-Yields, wrapping-Yields, modify-Yields, pure-Yields, if-Yields,
}
use tsdb_operator.Base.Int.{ℤ}
use tsdb_operator.Restore.{Object, latest, latest_key}
use tsdb_operator.Restore.Newest.{IsNewest, latest-IsNewest}
use tsdb_operator.Restore.Command.{
  Options, S3Flags, Machine, client, chosen, resolve, report, deferred, download, save, restore,
}

deferred-Yields :
    {W A : Type 0} (close : W → W) (P : W → Type 0) (m : Action W A) (R : A → W → Type 0)
    → Yields P m R
    → ((a : A) (w : W) → R a w → R a (close w))
    → Yields P (deferred close m) R
deferred-Yields close P m R h closed w p a w' q =
    subst (R a) (ap (λ x. x.1) q) (closed a (m w).1 (h w p a (m w).1 (ap (λ x. (x.0, (m w).1)) q)))

module _ {Aws S3 File Body W : Type 0} (m : Machine Aws S3 File Body W) {Content : Type 0}
    (listing : (bucket prefix : String) → List Object)
    (remote : (bucket key : String) → Option Content) (files : W → String → Option Content)
    (path_of : File → String) (content_of : Body → Content) where
  -- What one call of ListObjectsV2 answers with: at most 1000 of the objects under the prefix, the
  -- first in the order of `listing`.
  abbrev pub page : (bucket prefix : String) → List Object
  page bucket prefix = take 1000 (listing bucket prefix)

  -- The bucket does not change meanwhile, a listing is the first page, and a copy that succeeds
  -- writes the body to the file.
  pub record MachineLaws : Type 0 where
    pub lists :
        (s3 : S3) (bucket prefix : String) (w : W) (os : List Object) (w' : W)
        → m.list_objects s3 bucket prefix w ≡ (ok os, w')
        → os ≡ page bucket prefix
    pub gets :
        (s3 : S3) (bucket key : String) (w : W) (b : Body) (w' : W)
        → m.get_object s3 bucket key w ≡ (ok b, w')
        → remote bucket key ≡ some (content_of b)
    pub creates :
        (path : String) (w : W) (f : File) (w' : W)
        → m.create path w ≡ (ok f, w')
        → path_of f ≡ path
    pub copies :
        (f : File) (b : Body) (w : W) (n : ℤ) (w' : W)
        → m.copy f b w ≡ (ok n, w')
        → files w' (path_of f) ≡ some (content_of b)
    pub prints : (s : String) (w : W) → files (m.print s w) ≡ files w
    pub closes_file : (f : File) (w : W) → files (m.close_file f w) ≡ files w
    pub closes_body : (b : Body) (w : W) → files (m.close_body b w) ≡ files w
    pub loads : (region : String) (w : W) → files (m.load_aws_config region w).1 ≡ files w
    pub lists_only :
        (s3 : S3) (bucket prefix : String) (w : W)
        → files (m.list_objects s3 bucket prefix w).1 ≡ files w

  -- The key that was given, or else that of an object of the first page, none of which has a later
  -- stamp.
  abbrev pub IsChosen : Options → String → Type 0
  IsChosen o key =
      (key ≡ o.key)
      ⊎ ((o.key ≡ "")
          × ((best : Object) × Any (λ p. p ≡ best) (page o.flags.bucket o.flags.prefix)
              × IsNewest (page o.flags.bucket o.flags.prefix) best
              × (best.key ≡ key)))

  -- The file for the key has the content of the object.
  abbrev pub IsSaved : Options → (key : String) → W → Type 0
  IsSaved o key w =
      (content : Content) × (remote o.flags.bucket key ≡ some content)
      × (files w (m.join o.dest (m.base key)) ≡ some content)

  module _ (laws : MachineLaws) where
    latest-best :
        (os : List Object)
        → latest ("", "") os ≢ ""
        → (best : Object) × Any (λ p. p ≡ best) os
          × IsNewest os best
          × (best.key ≡ latest ("", "") os)
    unfolding latest
    latest-best [] some_key = absurd (some_key refl)
    latest-best (o ∷ os) some_key =
        let (best, same, newest, found) = latest-IsNewest o os in (best, found, newest, sym same)

    pub latest_key-Yields :
        (s3 : S3) (f : S3Flags)
        → Yields
            (λ _. Unit)
            (latest_key (m.list_objects s3) f.bucket f.prefix)
            (λ key _. key ≡ latest ("", "") (page f.bucket f.prefix))
    unfolding latest_key
    latest_key-Yields s3 f =
        bind-Yields (λ _. Unit) _ (λ os _. os ≡ page f.bucket f.prefix) _ _
          (wrapping-Yields (λ _. Unit) "list objects" (m.list_objects s3 f.bucket f.prefix) _
            (λ w u os w' q. laws.lists s3 f.bucket f.prefix w os w' q))
          (λ os. pure-Yields _ _ _ (λ w same. ap (latest ("", "")) same))

    chosen-Yields :
        (o : Options) (key : String)
        → o.key ≡ ""
        → Yields
            (λ _. key ≡ latest ("", "") (page o.flags.bucket o.flags.prefix))
            (chosen m o.flags key)
            (λ k _. IsChosen o k)
    chosen-Yields o key none_given =
        if-Yields _ (key == "") _ _ _ (λ e w h k w' q. let bad : ⊥ = cc in absurd bad)
          (λ e. pure-Yields _ key _ (λ w h.
            let some_key : latest ("", "") (page o.flags.bucket o.flags.prefix) ≢ "" =
              λ q. ground (arith, eq_iff key "", h ∙ q) in
            let (best, found, newest, same) = latest-best _ some_key in
            inr (none_given, (best, found, newest, same ∙ sym h))))

    resolve-Yields :
        (s3 : S3) (o : Options) → Yields (λ _. Unit) (resolve m s3 o) (λ key _. IsChosen o key)
    unfolding resolve
    resolve-Yields s3 o =
        if-Yields _ (o.key == "") _ _ _
          (λ e.
            bind-Yields (λ _. Unit) (latest_key (m.list_objects s3) o.flags.bucket o.flags.prefix)
              (λ key _. key ≡ latest ("", "") (page o.flags.bucket o.flags.prefix))
              (chosen m o.flags) _ (latest_key-Yields s3 o.flags)
              (λ key. chosen-Yields o key (ground (arith, eq_iff o.key "", e))))
          (λ e. pure-Yields _ o.key _ (λ w u. inl refl))

    report_leaves :
        (f : S3Flags) (key local : String) (n : ℤ) (w : W)
        → files (report m f key local n w) ≡ files w
    report_leaves f key local n w =
        laws.prints _ _
        ∙ laws.prints _ _
        ∙ laws.prints _ _
        ∙ laws.prints _ _
        ∙ laws.prints _ _
        ∙ laws.prints _ _

    abbrev Saved : (bucket key local : String) → W → Type 0
    Saved bucket key local w =
        (content : Content) × (remote bucket key ≡ some content) × (files w local ≡ some content)

    still :
        (bucket key local : String) (w w' : W)
        → files w' ≡ files w
        → Saved bucket key local w
        → Saved bucket key local w'
    still bucket key local w w' same (content, there, written) =
        (content, there, ap (λ g. g local) same ∙ written)

    download-Yields :
        (s3 : S3) (f : S3Flags) (key local : String) (file : File)
        → path_of file ≡ local
        → Yields (λ _. Unit) (download m s3 f key local file) (λ _. Saved f.bucket key local)
    unfolding download
    download-Yields s3 f key local file at =
        let saved = Saved f.bucket key local in
        bind-Yields (λ _. Unit) _ (λ b _. remote f.bucket key ≡ some (content_of b)) _ _
          (wrapping-Yields (λ _. Unit) "get object" (m.get_object s3 f.bucket key) _
            (λ w u b w' q. laws.gets s3 f.bucket key w b w' q))
          (λ body.
            deferred-Yields (m.close_body body) (λ _. remote f.bucket key ≡ some (content_of body))
              (wrapping "write snapshot" (m.copy file body) >>= λ n.
                modify (report m f key local n))
              (λ _. saved)
              (bind-Yields _ _ (λ _. saved) _ _
                (wrapping-Yields _ "write snapshot" (m.copy file body) _ (λ w there n w' q. (
                  content_of body,
                  there,
                  ap (files w') (sym at) ∙ laws.copies file body w n w' q,
                )))
                (λ n.
                  modify-Yields saved saved (report m f key local n)
                    (λ w h. still f.bucket key local w _ (report_leaves f key local n w) h)))
              (λ a w h. still f.bucket key local w _ (laws.closes_body body w) h))

    save-Yields :
        (s3 : S3) (o : Options) (key : String)
        → Yields (λ _. Unit) (save m s3 o key) (λ _. IsSaved o key)
    unfolding save
    save-Yields s3 o key =
        let local = m.join o.dest (m.base key) in
        bind-Yields (λ _. Unit) _ (λ _ _. Unit) _ _ (λ w u a w' q. tt)
          (λ _.
            bind-Yields (λ _. Unit) _ (λ f _. path_of f ≡ local) _ _
              (wrapping-Yields (λ _. Unit) "create file" (m.create local) _
                (λ w u f w' q. laws.creates local w f w' q))
              (λ file.
                deferred-Yields (m.close_file file) (λ _. path_of file ≡ local)
                  (download m s3 o.flags key local file) (λ _. IsSaved o key)
                  (λ w at a w' q. download-Yields s3 o.flags key local file at w tt a w' q)
                  (λ a w h. still o.flags.bucket key local w _ (laws.closes_file file w) h)))

    -- A restore that succeeds has written the object to a file of its name in the directory asked for,
    -- and the object is the one of the key that was given. Without one it is an object of the first
    -- page of the listing, of at most 1000 objects under the prefix, and no object of that page has a
    -- stamp (the text of its last modification, to the second) that comes after its stamp in the order
    -- of texts.
    pub restore-IsSaved :
        (o : Options) (w w' : W)
        → restore m o w ≡ (ok tt, w')
        → (key : String) × IsChosen o key × IsSaved o key w'
    unfolding restore
    restore-IsSaved o w w' q =
        bind-Yields (λ _. Unit) (client m o.flags) (λ _ _. Unit) _
          (λ _ v. (key : String) × IsChosen o key × IsSaved o key v) (λ w u a w' q. tt)
          (λ s3.
            bind-Yields (λ _. Unit) (resolve m s3 o) (λ key _. IsChosen o key) _ _
              (resolve-Yields s3 o)
              (λ key. λ v is a v' p. (key, is, save-Yields s3 o key v tt a v' p)))
          w tt tt w' q
