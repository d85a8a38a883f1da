-- ===== src/Queue/Context/Linkage.antt =====
-- The headers that a publisher attaches, as the handlers read them back.
use washing.Prelude.{◌≡◌, refl, ap, ◌∙◌, Option, none, some, List, [], ◌∷◌, Text, eq_text, ℤ, arith}
use washing.Domain.{Strings}
use washing.Security.{Json, str, Fields}
use washing.Queue.Context.{
  get_field, task_resource_type, string_or_none, coerce_resource_id, coerce_first,
  build_task_tracking_headers, resolve_resource_context, type_header, id_header, fallback_id, ◌>>=◌,
}

-- Every tracked type of resource is a name, so it passes through a header.
string_or_none-task_resource_type :
    (name t : Text) → task_resource_type name ≡ some t → string_or_none (str t) ≡ some t
unfolding task_resource_type string_or_none
string_or_none-task_resource_type name [] h = ground arith
string_or_none-task_resource_type name (c ∷ t) h = refl

module _ (strings : Strings) (name : Text) where
  resolve-headers :
      (t : Option Text) (id : Option ℤ) (args : List Json)
      → task_resource_type name ≡ t
      → resolve_resource_context strings name (some (type_header t (id_header id))) args
        ≡ (fallback_id strings id t args >>= λ found. some (t, found))
  unfolding resolve_resource_context get_field eq_text string_or_none coerce_resource_id
  resolve-headers none none args h = rw h refl
  resolve-headers none (some n) args h = rw h refl
  resolve-headers (some t) none args h = rw (string_or_none-task_resource_type name t h)
  resolve-headers (some t) (some n) args h = rw (string_or_none-task_resource_type name t h)

  build-headers :
      (args : List Json) (id : Option ℤ)
      → coerce_first strings args ≡ some id
      → build_task_tracking_headers strings name args
        ≡ some (type_header (task_resource_type name) (id_header id))
  unfolding build_task_tracking_headers
  build-headers args id h = rw h

  -- The id that the headers lost is the one of the same arguments.
  fallback_id_same :
      (t : Option Text) (args : List Json) (id : Option ℤ)
      → coerce_first strings args ≡ some id
      → fallback_id strings id t args ≡ some id
  fallback_id_same t args (some n) h = refl
  fallback_id_same none args none h = refl
  fallback_id_same (some t) args none h = h

  -- Where the first argument can be read as an id or as none, the headers that a publisher
  -- attaches are read back as the type of the task's resource and that id, given the same
  -- arguments.
  pub resolve-build :
      (args : List Json) (id : Option ℤ)
      → coerce_first strings args ≡ some id
      → (headers : Fields) × (build_task_tracking_headers strings name args ≡ some headers)
        × (resolve_resource_context strings name (some headers) args
            ≡ some (task_resource_type name, id))
  resolve-build args id h =
      let t = task_resource_type name in
      (
        type_header t (id_header id),
        build-headers args id h,
        resolve-headers t id args refl
            ∙ ap (λ o. o >>= λ found. some (t, found)) (fallback_id_same t args id h),
      )

  -- If the publisher found an id, the handlers read the same type and id back whatever arguments
  -- they see, so a retry keeps the linkage.
  pub resolve-build_retry :
      (args other_args : List Json) (n : ℤ)
      → coerce_first strings args ≡ some (some n)
      → (headers : Fields) × (build_task_tracking_headers strings name args ≡ some headers)
        × (resolve_resource_context strings name (some headers) other_args
            ≡ some (task_resource_type name, some n))
  resolve-build_retry args other_args n h =
      let t = task_resource_type name in
      (
        type_header t (id_header (some n)),
        build-headers args (some n) h,
        resolve-headers t (some n) other_args refl,
      )
