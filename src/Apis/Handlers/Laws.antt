-- ===== src/Apis/Handlers/Laws.antt =====
-- What the handlers of the APIs answer.
mod Tests
use sentinel_api_platform.Prelude.{
  ℕ, ◌+◌, ◌≡◌, refl, sym, ap, ◌∙◌, inl, inr, String, Bool, true, false, ◌==◌, Bool-cases, eq_iff,
  List, length, arith, if◌then◌else◌,
}
use mathlib.Core.Path.{subst}
use sentinel_api_platform.Errs.{Error, text}
use sentinel_api_platform.Errs.Mapper.{fail, write_error}
use sentinel_api_platform.Effects.{
  Result, ok, err, Call, ◌>>=◌, Result-cases, bind-ok, ok_injective,
}
use sentinel_api_platform.Model.{Api}
use sentinel_api_platform.Http.{
  Request, Reply, sent, failed, Handler, Binder, answer, reply_of, with_user, with_body,
}
use sentinel_api_platform.Apis.Handlers.{
  ApiService, CreateApiRequest, UpdateApiRequest, create_api, list_apis, get_api, update_api,
  delete_api, add_tag, delete_tag,
}
use sentinel_api_platform.Apis.Handlers.Import.{
  Imported, import_openapi, import_apis, import_all, Creates, Creates-sum, import_all-Creates,
}

-- The answer to a request without a caller, which leaves the state as it was.
abbrev pub Anonymous : {S A : Type 0} → Reply A × S → S → Type 0
Anonymous x s =
    x ≡ (failed (fail 500 50001 "user_id missing from request context — route not protected"), s)

answer-sent :
    {S A : Type 0} (driver : ℕ → String) (call : Call S A) (s : S) (a : A)
    → (answer driver call s).0 ≡ sent a
    → (call s).0 ≡ ok a
unfolding reply_of
answer-sent driver call s a h = elim (Result-cases (call s).0) [
  | inl (b, e) ↦ (let same = rw (e, reply_of) at h in ground arith)
  | inr (why, e) ↦ (let stuck = rw (e, reply_of) at h in ground arith)
]

module _ {S D : Type 0} (create : String → String → Api → Call S Api) (driver : ℕ → String)
    (load : String → Call S D) (extract : D → String → Call S (List Api)) (bind : Binder String)
    (r : Request) (s : S) where
  -- What an import has done that is answered with `d` in the state `t`: the document was loaded, its
  -- operations were created in turn for the caller and the project, and `d` counts the calls that
  -- succeeded, lists those that were refused, and has the number of the operations.
  pub record IsImport (d : Imported) (t : S) : Type 0 where
    pub has_caller : (r.user_id == "") ≡ false
    pub spec : String
    pub is_body : bind r.body ≡ ok spec
    pub doc : D
    pub loaded : (load spec s).0 ≡ ok doc
    pub apis : List Api
    pub extracted : (extract doc (r.param "pid") (load spec s).1).0 ≡ ok apis
    pub creates :
        Creates create driver r.user_id
          (r.param "pid")
          apis
          (extract doc (r.param "pid") (load spec s).1).1
          d.imported
          d.failures
          t
    pub counts_all : d.total ≡ length apis
    pub sum : d.imported + length d.failures ≡ d.total

  import_apis-IsImport :
      (spec : String) (doc : D) (apis : List Api) (d : Imported)
      → (r.user_id == "") ≡ false
      → bind r.body ≡ ok spec
      → (load spec s).0 ≡ ok doc
      → (extract doc (r.param "pid") (load spec s).1).0 ≡ ok apis
      → let s₂ = (extract doc (r.param "pid") (load spec s).1).1 in
        let done = import_apis create driver r.user_id (r.param "pid") apis s₂ in
        done.0 ≡ ok d → IsImport d done.1
  unfolding import_apis
  import_apis-IsImport spec doc apis d known is_body loaded extracted h =
      let pid = r.param "pid" in
      let s₂ = (extract doc pid (load spec s).1).1 in
      let ((made, refused), t) = import_all create driver r.user_id pid apis s₂ in
      let creates = import_all-Creates create driver r.user_id pid apis s₂ in
      subst (λ (x : Imported). IsImport x t) (ok_injective h)
        (record {
          has_caller = known;
          spec = spec;
          is_body = is_body;
          doc = doc;
          loaded = loaded;
          apis = apis;
          extracted = extracted;
          creates = creates;
          counts_all = refl;
          sum = Creates-sum create driver apis s₂ t (length made) refused creates;
        })

  -- Where an import is answered with data, the document was loaded and its operations were created
  -- in turn; the data counts the calls of the service that succeeded, lists the operations that
  -- were refused in the order of the document, and has the number of all operations, which is the
  -- sum of the two.
  pub import_openapi-IsImport :
      (d : Imported)
      → (import_openapi create driver load extract bind r s).0 ≡ sent d
      → IsImport d (import_openapi create driver load extract bind r s).1
  unfolding import_openapi
  import_openapi-IsImport d h = elim (Bool-cases (r.user_id == "")) [
    | inl e ↦ (let stuck = rw (e, import_openapi) at h in ground arith)
    | inr known ↦ elim (Result-cases (bind r.body)) [
      | inr (why, e) ↦ (let stuck = rw (known, import_openapi, e, with_body) at h in ground arith)
      | inl (spec, e) ↦
          (let pid = r.param "pid" in
            let made : List Api → Call S Imported = import_apis create driver r.user_id pid in
            let next : D → Call S Imported = λ doc. extract doc pid >>= made in
            let call = load spec >>= next in
            let h₁ : (call s).0 ≡ ok d =
              answer-sent driver call s d (rw (known, import_openapi, e, with_body) at h) in
            let (doc, loaded, same₁) = bind-ok (load spec) next s d h₁ in
            let h₂ = ap (λ x. x.0) (sym same₁) ∙ h₁ in
            let (apis, found, same₂) = bind-ok (extract doc pid) made (load spec s).1 d h₂ in
            let h₃ = ap (λ x. x.0) (sym same₂) ∙ h₂ in
            rw (known, import_openapi, e, with_body)
              (subst (IsImport d) (ap (λ x. x.1) (sym (same₁ ∙ same₂)))
                (import_apis-IsImport spec doc apis d known e loaded found h₃)))
    ]
  ]

module _ {S : Type 0} (svc : ApiService S) (driver : ℕ → String) (unmarshal : String → List String)
    (encode_tags : List String → String) where
  -- A request that the authentication has not given a caller is answered with 500 and the code
  -- 50001 by every handler of the APIs, and it calls nothing of the service: the state is as it was.
  pub handlers-Anonymous :
      (r : Request) (s : S)
      → r.user_id ≡ ""
      → ((bind : Binder CreateApiRequest)
          → Anonymous (create_api svc driver unmarshal encode_tags bind r s) s)
        × ((bind : Binder UpdateApiRequest)
            → Anonymous (update_api svc driver unmarshal encode_tags bind r s) s)
        × ((bind : Binder String) → Anonymous (add_tag svc driver unmarshal encode_tags bind r s) s)
        × Anonymous (list_apis svc driver unmarshal encode_tags r s) s
        × Anonymous (get_api svc driver unmarshal encode_tags r s) s
        × Anonymous (delete_api svc driver unmarshal encode_tags r s) s
        × Anonymous (delete_tag svc driver unmarshal encode_tags r s) s
  unfolding create_api update_api add_tag list_apis get_api delete_api delete_tag
  handlers-Anonymous r s h =
      let e = (eq_iff r.user_id "").1 h in
      (
        λ bind. rw e refl,
        λ bind. rw e refl,
        λ bind. rw e refl,
        rw e refl,
        rw e refl,
        rw e refl,
        rw e refl,
      )
