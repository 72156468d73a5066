-- ===== src/Kernel/Authz.antt =====
-- packages/kernel/src/authz.ts: the closed vocabulary of roles and permissions.
use Prim.Native.Char.{code}
use counted.Base.{
  ℕ, zero, suc, Bool, true, List, [], ◌∷◌, String, leb, Equality, nat_beq, ◌↔◌, ◌≡◌, refl, ap,
  arith, Option, none, some, nat_beq_iff, if◌then◌else◌,
}

pub data Role : Type 0 where
  owner admin member : Role

abbrev pub roles : List Role
roles = owner ∷ admin ∷ member ∷ []

abbrev pub rank : Role → ℕ
rank owner = 3
rank admin = 2
rank member = 1

abbrev pub at_least : Role → Role → Bool
at_least actual required = leb (rank required) (rank actual)

pub role_beq_iff : (a b : Role) → (nat_beq (rank a) (rank b) ≡ true) ↔ (a ≡ b)
role_beq_iff a b = ground arith

instance abbrev pub role_eq : Equality Role
role_eq = record { same = λ a b. nat_beq (rank a) (rank b); same_iff = role_beq_iff }

pub data Permission : Type 0 where
  events_write queries_run : Permission
  projects_read projects_write projects_delete : Permission
  dashboards_read dashboards_write : Permission
  monitors_read monitors_write : Permission
  credentials_read credentials_write : Permission
  workspace_read workspace_admin : Permission
  billing_read billing_write : Permission

abbrev pub all_permissions : List Permission
all_permissions =
    events_write ∷ queries_run ∷ projects_read ∷ projects_write ∷ projects_delete ∷ dashboards_read
    ∷ dashboards_write ∷ monitors_read ∷ monitors_write ∷ credentials_read ∷ credentials_write
    ∷ workspace_read ∷ workspace_admin ∷ billing_read ∷ billing_write ∷ []

-- The string that stands for a permission on the wire.
abbrev pub text : Permission → String
text events_write = "events:write"
text queries_run = "queries:run"
text projects_read = "projects:read"
text projects_write = "projects:write"
text projects_delete = "projects:delete"
text dashboards_read = "dashboards:read"
text dashboards_write = "dashboards:write"
text monitors_read = "monitors:read"
text monitors_write = "monitors:write"
text credentials_read = "credentials:read"
text credentials_write = "credentials:write"
text workspace_read = "workspace:read"
text workspace_admin = "workspace:admin"
text billing_read = "billing:read"
text billing_write = "billing:write"

-- The place of a permission in all_permissions.
abbrev pub index : Permission → ℕ
index events_write = 0
index queries_run = 1
index projects_read = 2
index projects_write = 3
index projects_delete = 4
index dashboards_read = 5
index dashboards_write = 6
index monitors_read = 7
index monitors_write = 8
index credentials_read = 9
index credentials_write = 10
index workspace_read = 11
index workspace_admin = 12
index billing_read = 13
index billing_write = 14

abbrev nth : List Permission → ℕ → Option Permission
nth [] i = none
nth (p ∷ ps) zero = some p
nth (p ∷ ps) (suc i) = nth ps i

nth-index : (p : Permission) → nth all_permissions (index p) ≡ some p
nth-index events_write = refl
nth-index _ = refl

index-injective : (a b : Permission) → index a ≡ index b → a ≡ b
index-injective a b h = cc (nth-index a, nth-index b, ap (nth all_permissions) h)

pub permission_beq_iff : (a b : Permission) → (nat_beq (index a) (index b) ≡ true) ↔ (a ≡ b)
permission_beq_iff a b =
    (λ h. index-injective a b ((nat_beq_iff _ _).0 h), λ h. (nat_beq_iff _ _).1 (ap index h))

instance abbrev pub permission_eq : Equality Permission
permission_eq = record { same = λ a b. nat_beq (index a) (index b); same_iff = permission_beq_iff }

-- `splitPermission`: the text before the colon, and the text behind it.
abbrev before_colon : String → String
before_colon String.[] = String.[]
before_colon (String.◌∷◌ c s) =
    if nat_beq (code c) b':' then String.[] else String.◌∷◌ c (before_colon s)

abbrev after_colon : String → String
after_colon String.[] = String.[]
after_colon (String.◌∷◌ c s) = if nat_beq (code c) b':' then s else after_colon s

abbrev pub resource : Permission → String
resource p = before_colon (text p)

abbrev pub action : Permission → String
action p = after_colon (text p)

split_events : resource events_write ≡ "events"
split_events = refl
