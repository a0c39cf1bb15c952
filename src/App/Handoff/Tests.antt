-- ===== src/App/Handoff/Tests.antt =====
-- The grant of a role to a cedant, with the hashes of the names of roles.
use nextblock.Base.{
  ◌≡◌, ◌↔◌, refl, Text, codes, text_eqb, [], ◌∷◌, Option, some, true, false, All, if◌then◌else◌,
}
use nextblock.Base.Table.{Table}
use nextblock.App.Session.{is_address}
use nextblock.App.Handoff.{
  grantable_names, ready, no_role, evaluate_grant, is_grantable_role_id, is_among,
}
use nextblock.App.Handoff.Grants.{IsSeparate, IsGrantable, evaluate_grant-ready_iff}

-- The keccak256 of the names of roles.
abbrev role_hashes : Table Text Text
role_hashes =
    (
      codes "AUTHORIZED_CEDANT_ROLE",
      codes "0xdded2152fd4de9b4e504520e18716b01155da2db03dde62a88648c2263475df0",
    )
    ∷ (
      codes "UNDERWRITING_CURATOR_ROLE",
      codes "0xf4a721a10c6fe5f01e074333800161457a6667839d48f8575d798c05ad6e74f3",
    )
    ∷ (
      codes "ALLOCATOR_ROLE",
      codes "0x68bf109b95a5c15fb2bb99041323c27d15f8675e11bf7420a1cd6ad64c394f46",
    )
    ∷ (
      codes "SENTINEL_ROLE",
      codes "0x0e58f09080507613e45c927895fdc351ce79a3743ce0a3e127396951be78d0a9",
    )
    ∷ (
      codes "CLAIMS_COMMITTEE_ROLE",
      codes "0x983b448801a2d04d897dd6baa2900de596214fe2ead88f3a76851191d645135b",
    )
    ∷ (
      codes "KYC_OPERATOR_ROLE",
      codes "0xdf54a8fce50b9de7187b8b9daaa3b95e6ef1bf1df5fe0a03ddea8faa73de2a10",
    )
    ∷ (
      codes "ORACLE_ROLE",
      codes "0x68e79a7bf1e0bc45d0a330c573bc367f9cf464fd326078812f301165fbda4ef1",
    )
    ∷ (
      codes "PREMIUM_DEPOSITOR_ROLE",
      codes "0xeb2530a687c2b7cabf5e729aaefaeec1620f47e56af2a4e3d6f0bdc2906c0888",
    )
    ∷ (
      codes "OWNER_ROLE",
      codes "0xb19546dff01e856fb3f010c267a7b1c60363cf8a4664e21cc89c26224620214e",
    )
    ∷ (
      codes "VAULT_FACTORY_ROLE",
      codes "0x7c3948777991e30efc945b298d109fc7a0c0de63dd562adfea7f970336f317b0",
    )
    ∷ []

abbrev hash_in : Table Text Text → Text → Text
hash_in [] name = []
hash_in ((n, hash) ∷ hashes) name =
    let rest = hash_in hashes name in if text_eqb n name then hash else rest

abbrev hash_of : Text → Text
hash_of name = hash_in role_hashes name

hash_of-AreSeparate : All (IsSeparate hash_of) grantable_names
hash_of-AreSeparate = (
  (refl, refl, refl),
  (
    (refl, refl, refl),
    (
      (refl, refl, refl),
      (
        (refl, refl, refl),
        ((refl, refl, refl), ((refl, refl, refl), ((refl, refl, refl), ((refl, refl, refl), tt)))),
      ),
    ),
  ),
)

abbrev cedant_account : Text
cedant_account = codes "0xABCDEFABCDEFABCDEFABCDEFABCDEFABCDEFABCD"

abbrev cedant_role : Option Text
cedant_role = some (hash_of (codes "AUTHORIZED_CEDANT_ROLE"))

granted_run :
    (evaluate_grant hash_of cedant_account cedant_role false ≡ ready)
    × (evaluate_grant hash_of cedant_account (some (hash_of (codes "OWNER_ROLE"))) false ≡ no_role)
unfolding evaluate_grant is_address is_grantable_role_id is_among
granted_run = (refl, refl)

evaluate_grant-ready_iff_example :
    evaluate_grant hash_of cedant_account cedant_role false ≡ ready
    ↔ (is_address cedant_account ≡ true) × ((false ≡ false) × IsGrantable hash_of cedant_role)
evaluate_grant-ready_iff_example =
    evaluate_grant-ready_iff hash_of hash_of-AreSeparate cedant_account cedant_role false
