-- ===== src/UrlScanner/Weight.antt =====
-- The score of backend/engines/scanning/url_scanner.py.
use graduationp.UrlScanner.Verdict.{
  severity_weights, add_item, capped, Account, weigh, SandboxSigns, calculate_verdict, add_sandbox,
}
use graduationp.Prelude.{ℕ, ◌≤◌, String, List, [], ◌∷◌, ◌++◌, Option, none, some, ◌≡◌, refl, arith}
use graduationp.Prelude.Dict.{lookup}
use graduationp.UrlScanner.{Evidence}

weigh-append : (xs ys : List Evidence) (a : Account) → weigh (xs ++ ys) a ≡ weigh ys (weigh xs a)
unfolding weigh
weigh-append [] ys a = refl
weigh-append (e ∷ xs) ys a = weigh-append xs ys _

add_item-le :
    (o : Option (ℕ × String)) (title : String) (a : Account) → a.0 ≤ (add_item o title a).0
add_item-le none title a = omega arith
add_item-le (some (pts, capitals)) title a = omega arith

weigh-le : (es : List Evidence) (a : Account) → a.0 ≤ (weigh es a).0
unfolding weigh
weigh-le [] a = omega arith
weigh-le (e ∷ es) a =
    let item = add_item (lookup e.severity severity_weights) e.title a in
    omega (arith, weigh-le es item, add_item-le (lookup e.severity severity_weights) e.title a)

-- what the sandbox adds to any account
add_sandbox-points :
    (s : Option SandboxSigns) (a b : Account)
    → a.0 ≤ b.0
    → (add_sandbox s a).0 ≤ (add_sandbox s b).0
unfolding add_sandbox
add_sandbox-points none a b le = le
add_sandbox-points (some s) a b le = ground (arith, le)

capped_mono : (m n : ℕ) → m ≤ n → capped m ≤ capped n
capped_mono m n le = ground (arith, le)

score_by_points :
    (es fs : List Evidence) (s : Option SandboxSigns)
    → (add_sandbox s (weigh es (0, []))).0 ≤ (add_sandbox s (weigh fs (0, []))).0
    → (calculate_verdict es s).score ≤ (calculate_verdict fs s).score
unfolding calculate_verdict
score_by_points es fs s le = capped_mono _ _ le

-- Further evidence never lowers the score of a URL.
evidence_only_adds :
    (xs ys : List Evidence) (s : Option SandboxSigns)
    → (calculate_verdict xs s).score ≤ (calculate_verdict (xs ++ ys) s).score
evidence_only_adds xs ys s =
    score_by_points xs (xs ++ ys) s
      (add_sandbox-points s _ _ (rw (weigh-append xs ys (0, [])) (weigh-le ys (weigh xs (0, [])))))
