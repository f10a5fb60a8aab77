-- ===== src/Cached.antt =====
-- apps/core/cache/decorator.py: the decorators `cached` and `cache_invalidate`, over any cache of
-- `Cache.Api`, around a function that changes a state of its own.
pub mod Untyped
mod Tests
use Prim.Native.Char.{Char, code}
use Prim.Native.String.{◌++◌}
use taunggyi_city_church.Common.{
  ℕ, Bool, true, false, Option, none, some, List, [], ◌∷◌, String, str_eq, or_else, ◌==◌,
  if◌then◌else◌,
}
use taunggyi_city_church.Common.Exec.{
  Outcome, Exec, ok, raised, Exn, pure, catch, ◌>>=◌, ◌>>◌, attribute_error, value_error, key_error,
  other_error,
}
use taunggyi_city_church.Common.Dict.{Dict, lookup}
use taunggyi_city_church.Common.Text.{◌:::◌}
use taunggyi_city_church.CacheKeys.{CacheNamespace, build_key}
use taunggyi_city_church.Cache.Api.{CacheApi}

-- What `namespace` is given: a member of the enumeration, or a text, as the default "default" is.
pub data Namespace : Type 0 where
  typed : CacheNamespace → Namespace
  untyped : String → Namespace

-- Where `str.format` stands: in the text, after `{`, after `}`, or within the name of a field
pub data Place : Type 0 where
  plain opened closed : Place
  field : String → Place

abbrev pub one_char : Char → String
one_char c = String.◌∷◌ c String.[]

abbrev pub field_value : Option String → Outcome (String × Place)
field_value none = raised key_error
field_value (some v) = ok (v, plain)

-- One character of a template: what it writes, and the place after it. The fields of the templates
-- are names of arguments; a field without a name is an IndexError, since there are no arguments by
-- position, and conversions and formats are not modelled.
abbrev pub format_char : Place → Char → Dict String → Outcome (String × Place)
format_char plain c bound =
    if code c == 123
    then ok ("", opened)
    else if code c == 125
    then ok ("", closed)
    else ok (one_char c, plain)
format_char opened c bound =
    if code c == 123
    then ok ("{", plain)
    else if code c == 125
    then raised other_error
    else ok ("", field (one_char c))
format_char closed c bound = if code c == 125 then ok ("}", plain) else raised value_error
format_char (field name) c bound =
    if code c == 125
    then field_value (lookup name bound)
    else if code c == 123
    then raised value_error
    else ok ("", field (name ++ one_char c))

abbrev pub prefixed : String → Outcome String → Outcome String
prefixed out (ok s) = ok (out ++ s)
prefixed out (raised e) = raised e

abbrev pub ended : Place → Outcome String
ended plain = ok ""
ended _ = raised value_error

-- `key_template.format(**bound_args.arguments)`, of the texts of the arguments
unfoldable pub format : Place → String → Dict String → Outcome String
unfolding lookup
format place String.[] bound = ended place
format place (String.◌∷◌ c s) bound = elim (format_char place c bound) [
  | raised e ↦ raised e
  | ok (out, next) ↦ prefixed out (format next s bound)
]

-- A call of a decorated function: its `__name__`, the texts of `args` and `kwargs`, what
-- `sig.bind(…)` makes of them and the text of that.
pub record Call : Type 0 where
  pub name : String
  pub args : String
  pub kwargs : String
  pub bound_args : Outcome (Dict String)
  pub bound_text : String

-- `if not key_template`
abbrev pub template_of : Call → Option String → String
template_of call none = call.name ::: call.args ::: call.kwargs
template_of call (some t) = if str_eq t "" then call.name ::: call.args ::: call.kwargs else t

abbrev pub formatted_key : Call → Outcome String → Outcome String
formatted_key call (ok s) = ok s
formatted_key call (raised key_error) = ok (call.name ::: call.bound_text)
formatted_key call (raised e) = raised e

-- `CacheKeyBuilder.build_key(…)`, which reads `namespace.value`: a text has no such attribute.
abbrev pub key_in : Namespace → String → String → Outcome String
key_in (typed namespace) key version = ok (build_key namespace (some key ∷ []) (some version))
key_in (untyped namespace) key version = raised attribute_error

abbrev pub key_of_text : Namespace → String → Outcome String → Outcome String
key_of_text namespace version (raised e) = raised e
key_of_text namespace version (ok key) = key_in namespace key version

abbrev pub key_of_args :
    Call → Option String → Namespace → String → Outcome (Dict String) → Outcome String
key_of_args call key_template namespace version (raised e) = raised e
key_of_args call key_template namespace version (ok bound) =
    key_of_text namespace version
      (formatted_key call (format plain (template_of call key_template) bound))

-- `_build_cache_key`
unfoldable pub build_cache_key : Call → Option String → Namespace → String → Outcome String
build_cache_key call key_template namespace version =
    key_of_args call key_template namespace version call.bound_args

-- what a decorated function acts on, and the cache
pub record World (A C : Type 0) : Type 0 where
  pub app : A
  pub cache : C

abbrev pub not_none : {V : Type 0} → (V → Bool) → Option V → Option V
not_none is_none none = none
not_none is_none (some v) = if is_none v then none else some v

-- `available` says whether an AsyncCache is found in the arguments, and `is_none` which value is
-- None: a cached one is not used.
module _ {A V : Type 0} (api : CacheApi V) (is_none : V → Bool) (available : Bool) where
  abbrev pub on_app : {B : Type 0} → Exec A B → Exec (World A (CacheApi.State api)) B
  on_app f w = let (r, a) = f w.app in (r, record w { app = a })

  abbrev pub on_cache :
      {B : Type 0} → Exec (CacheApi.State api) B → Exec (World A (CacheApi.State api)) B
  on_cache f w = let (r, c) = f w.cache in (r, record w { cache = c })

  abbrev pub lift : {B : Type 0} → Outcome B → Exec (World A (CacheApi.State api)) B
  lift r w = (r, w)

  -- `try: await m` with `except Exception` and a warning
  abbrev pub attempt :
      {B : Type 0} → Exec (CacheApi.State api) B → Exec (World A (CacheApi.State api)) Unit
  attempt m = catch (do on_cache m; pure tt) (λ e. pure tt)

  -- the part of the wrapper of `cached` after a miss
  abbrev pub fill : Exec A V → String → ℕ → ℕ → Exec (World A (CacheApi.State api)) V
  fill func key ttl later = do
    result ← on_app func
    attempt (api.set later key result ttl)
    pure result

  -- `if cached_result is not None: return cached_result`, and what follows
  abbrev pub serve : Exec A V → String → ℕ → ℕ → Option V → Exec (World A (CacheApi.State api)) V
  serve func key ttl later (some v) = pure v
  serve func key ttl later none = fill func key ttl later

  -- The wrapper of `cached`, of the time at which it looks and of that at which it stores.
  unfoldable pub cached :
      Option String
      → ℕ
      → Namespace
      → String
      → Call
      → Exec A V
      → ℕ
      → ℕ
      → Exec (World A (CacheApi.State api)) V
  unfolding build_cache_key
  cached key_template ttl namespace version call func now later =
      if available
      then (do
        key ← lift (build_cache_key call key_template namespace version)
        found ← catch (on_cache (api.get now key)) (λ e. pure none)
        serve func key ttl later (not_none is_none found))
      else on_app func

  -- the loop over the templates
  unfoldable pub delete_keys :
      List String → Namespace → String → Call → ℕ → Exec (World A (CacheApi.State api)) Unit
  unfolding build_cache_key
  delete_keys [] namespace version call now = pure tt
  delete_keys (t ∷ rest) namespace version call now = do
    key ← lift (build_cache_key call (some t) namespace version)
    attempt (api.delete now key)
    delete_keys rest namespace version call now

  abbrev pub delete_if :
      Bool → List String → Namespace → String → Call → ℕ → Exec (World A (CacheApi.State api)) Unit
  delete_if true templates namespace version call now =
      delete_keys templates namespace version call now
  delete_if false templates namespace version call now = pure tt

  -- The wrapper of `cache_invalidate`
  unfoldable pub cache_invalidate :
      List String → Namespace → String → Call → Exec A V → ℕ → Exec (World A (CacheApi.State api)) V
  unfolding delete_keys
  cache_invalidate key_templates namespace version call func now = do
    result ← on_app func
    delete_if available key_templates namespace version call now
    pure result
