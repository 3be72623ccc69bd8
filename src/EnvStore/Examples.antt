-- ===== src/EnvStore/Examples.antt =====
-- A delivery that replaces one variable and drops another.
use headcount.Prelude.{
  ℕ, ◌≡◌, refl, sym, ap, ◌∙◌, All-mem, String, true, false, none, some, List, [], ◌∷◌, ok, err,
  Memᴰ, append, if◌then◌else◌, str_eq, has_nul,
}
use headcount.EnvStore.{
  matches_key, name_tail, Env, Store, ProcessEnv, validate, apply, persist_delivered_env, digest,
  partition, skip_reason,
}
use headcount.EnvStore.Effects.{apply-keeps_refused}
use headcount.EnvStore.Deliveries.{Delivered, IsMap, IsClean, persist_delivered_env-takes_effect}

abbrev before : Store
before = record { values = ("A", "1") ∷ ("B", "2") ∷ []; secret_keys = []; removed_keys = [] }

-- A store file that was edited by hand.
abbrev tampered : Store
tampered = record {
  values = ("A", "1") ∷ ("PATH", "/tmp") ∷ [];
  secret_keys = [];
  removed_keys = [];
}

abbrev machine : ProcessEnv
machine k = if str_eq k "PATH" then some "/bin" else none

refused :
    validate "PATH" ≡ err "refused: changes which binaries the server and agent shells execute"
unfolding validate matches_key name_tail
refused = refl

apply-keeps_refused_example : (apply tampered machine).1.1 "PATH" ≡ some "/bin"
apply-keeps_refused_example = apply-keeps_refused tampered machine "PATH" _ refused

abbrev decimal : ℕ → String
decimal n = "?"

abbrev hash : Env → List String → String
hash [] secret = ""
hash ((k, v) ∷ env) secret = append k v

abbrev delivered : Env
delivered = ("A", "3") ∷ []

one_A : IsMap delivered
one_A k v v' (Memᴰ.head e) (Memᴰ.head e') = ap (λ x. x.1) e' ∙ sym (ap (λ x. x.1) e)
one_A k v v' (Memᴰ.head e) (Memᴰ.tail h) = elim h [ ]
one_A k v v' (Memᴰ.tail h) m = elim h [ ]

plain : (k v : String) → Memᴰ (k, v) delivered → has_nul v ≡ false
plain k v h = All-mem (λ e. has_nul e.1 ≡ false) delivered (refl, tt) h

clean : IsClean before.values
unfolding validate matches_key name_tail
clean k v h = All-mem (λ e. validate e.0 ≡ ok tt) before.values (refl, (refl, tt)) h

changes : (persist_delivered_env decimal hash (some delivered) [] before).0 ≡ true
unfolding persist_delivered_env digest partition skip_reason validate matches_key name_tail
changes = refl

persist_delivered_env-takes_effect_example :
    let s = (persist_delivered_env decimal hash (some delivered) [] before).1.1 in
    Delivered decimal hash delivered [] before s machine (apply s machine)
persist_delivered_env-takes_effect_example =
    persist_delivered_env-takes_effect decimal hash delivered [] before machine one_A plain clean
      changes
