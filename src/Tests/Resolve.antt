-- ===== src/Tests/Resolve.antt =====
-- The resolver of internal/executor/resolve.go at concrete inputs.
use post_lite.Base.{
  if◌then◌else◌, All, Str, codes, str_eq, GoMap, lookup, insert, String, ◌≡◌, refl, Option, none,
  some, List, [], ◌∷◌, ◌++◌, arith,
}
use post_lite.Executor.Redact.{
  dedup, insert_by_length, sort_by_length, new_redactor, replace_from, replace_all, text,
}
use post_lite.Executor.Resolve.{
  name_run, closed_name, placeholder, Resolver, new_resolver, add_once, substitute, resolve_from,
  resolve, used_secrets,
}
use post_lite.Executor.Resolve.Tokens.{
  Token, literal, variable, IsPlain, print, expand, resolve-print,
}
use post_lite.Executor.Resolve.Secrets.{Names}

resolver : Unit {0}
unfolding resolve resolve_from substitute placeholder closed_name name_run add_once print expand
    lookup insert new_redactor text replace_all replace_from dedup insert_by_length sort_by_length
resolver = tt

abbrev vault : Str → Option Str
vault name = if str_eq name (codes "key") then some (codes "s3cr3t") else none

abbrev env : GoMap Str
env = (codes "host", codes "h.test") ∷ []

abbrev run_on : String → Str × Resolver
run_on s = resolve vault (codes s) (new_resolver env)

resolve_tests :
    ((run_on "http://{{host}}/?k={{sec.key}}").0 ≡ codes "http://h.test/?k=s3cr3t")
    × ((run_on "http://{{host}}/?k={{sec.key}}").1.warnings ≡ [])
    × (used_secrets (run_on "{{sec.key}}").1 ≡ codes "s3cr3t" ∷ [])
    × ((run_on "{{nope}} {{{host}} {{}} {{host}").0 ≡ codes "{{nope}} {h.test {{}} {{host}")
    × ((run_on "{{nope}}{{nope}}").1.warnings ≡ codes "nope" ∷ [])
unfolding resolver
resolve_tests = (refl, refl, refl, refl, refl)

abbrev before : List Token
before = literal b'k' ∷ literal b'=' ∷ []

abbrev after : List Token
after = literal b'&' ∷ variable (codes "host") ∷ []

abbrev whole : List Token
whole = before ++ variable (codes "sec.key") ∷ after

whole-IsPlain : All IsPlain whole
unfolding resolver
whole-IsPlain = ground arith

resolve-print_example :
    resolve vault (print whole) (new_resolver env) ≡ expand vault whole (new_resolver env)
resolve-print_example = resolve-print vault whole (new_resolver env) whole-IsPlain

key-Names : Names vault env (codes "sec.key") (codes "key") (codes "s3cr3t")
unfolding resolver
key-Names = record { free = refl; prefixed = refl; held = refl }
