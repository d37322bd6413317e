-- ===== src/Lib.antt =====
-- The AutoEdge licensing server (autoedge_licensing/service.py and
-- autoedge_licensing/security.py): Whop webhook events become customers, subscriptions and
-- entitlements, clients ask whether they are licensed, a licensed device logs in to Tradovate,
-- administrators change entitlements, devices and limits, and releases are offered to the customers
-- that may see them.
--
-- The state is a `Database`: each SQLite table is a list of rows in the order of their rowids,
-- with the columns that the modelled code uses. An operation takes the database and the clock's
-- reading and gives the database back with its result, in the order of the code's writes.
-- The files and the code:
--   * Prelude, Text, Sorting: lists, options, Python's `str`, `sorted`.
--   * Time: `iso`, `parse_time` of stored times, `earlier_time`, `later_time`, `ceil_days`.
--   * Version: `parse_version_parts`, `version_is_newer`, `compare_versions`, `release_action`,
--     `release_action_for_row`.
--   * Database: the rows of migrations/*.sql, `audit`, and in Database/Keys and Database/Unique the
--     lemmas on rows with distinct keys.
--   * Whop/Status: `normalize_entitlement_status`, `normalize_subscription_status`,
--     `is_cancel_at_period_end_event`, `_grant_kind`; Whop/Expiry: `entitlement_expiry_target`;
--     Whop/Ledger: `_grant_fingerprint`, `_paid_period_duplicate_exists`, `_record_grant_ledger`.
--   * Whop/Direct: `_upsert_direct_whop_entitlement`; Whop/Package and Whop/Package/Decide:
--     `_apply_whop_package_grant`; Whop/Subscription: `_upsert_whop_subscription`;
--     Whop/Customers: `create_or_update_customer`; Whop/Event: `process_whop_event` and
--     `_upsert_whop_entitlement`, which compose them.
--   * License/Client, License/Customers, License/Devices, License/Grants, License/Lease,
--     License/States, License/Check: `check_license` and all that it calls.
--   * Admin: `manual_set_entitlement`, `remove_entitlement`, `set_device_blocked`,
--     `set_customer_max_devices`, `block_all_customer_devices`, `set_customer_tags`.
--   * Tags: `normalize_tag`, `normalize_tag_list`, `normalize_identifier_list`,
--     `clamp_rollout_percent`.
--   * Release: `_release_sort_key`, `_release_audience_match`, `_release_visible_to_customer`,
--     `_select_visible_releases`.
--   * Security: `encrypt_secret` and `decrypt_secret` (Security/Tokens), `sign_value` and
--     `unsign_value` (Security/Signed), `verify_standard_webhook` and `verify_bearer`
--     (Security/Webhook), over the functions of hmac, base64 and UTF-8 (Security/Primitives).
--   * Oauth/States, Oauth/Start, Oauth/Callback, Oauth/Context, Oauth/Refresh: the calls on
--     tradovate_oauth_states, which use the license check and the stored secrets; Oauth/Calls joins
--     them, and Oauth/Evolution has the life of a login that they refine.
--   * Security/Passwords: `hash_password` and `verify_password`; Accounts: `create_admin_user`,
--     `authenticate_admin`, `admin_from_session`, `revoke_session`, `change_admin_password`.
--   * Tests: small tables and runs.
--
-- What is simplified. A `datetime` is a number of microseconds since the epoch and a stored time a
-- number of seconds; one call reads the clock once; times do not reach the end of Python's range.
-- Case, white space and digits of texts are those of ASCII. Identifiers, hashes, signatures and the text
-- of a time are parameters (`Platform`, `Signer`, `from_iso`); no law of them is assumed. Those of
-- the cryptographic functions that a theorem uses are the record `IsStandard`, or hypotheses of it. A
-- theorem that needs the key of a table says so: ids are distinct, and the next one is new. Rows
-- that break a UNIQUE or CHECK constraint are not rejected, but for the UNIQUE columns of customers,
-- the key of a login, and the user names and tokens of administrators. JSON texts are the values that they
-- stand for; the messages of answers, their JSON copies and the constant claims of a lease are
-- left out. Rows that ORDER BY leaves equal keep their order. The loop of
-- `_token_keystream` has fuel for one round more than the bytes it is asked for, and each round
-- gives 32; all other recursion is on lists. Random values are arguments of a call. What Python
-- raises is a value of the result, and the tables are then those before the transaction. In an
-- event's handling any of the three sessions may raise, as `Event.raises_in` says; the sessions of
-- `process_whop_event` around it do not, and elsewhere only the exceptions that are named are
-- modelled. Texts have no lone surrogates, so that `str.encode` raises nothing.
--
-- Not modelled: the extraction of an event's data from its JSON payload, the administration of
-- products, packages, license keys and releases, the release manifest and downloads,
-- `check_nt8_license`, autoedge_licensing/app.py (HTTP), config.py, db.py,
-- signing.py, the HTTP client of tradovate.py, cookies of security.py, and the
-- scripts.
pub mod Prelude
pub mod Text
pub mod Version
pub mod Time
pub mod Database
pub mod Whop
pub mod Sorting
pub mod License
pub mod Tags
pub mod Admin
pub mod Release
pub mod Security
pub mod Oauth
pub mod Accounts
pub mod Tests
