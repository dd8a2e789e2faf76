-- ===== src/Lib.antt =====
-- A model of vinc-api, a multi-tenant commerce API: its payments, the roles and links of its users,
-- and the scopes of their memberships.
--
-- A wholesaler (tenant) configures payment providers, a retailer enables some of them for a
-- storefront, a checkout asks for the methods on offer and creates a payment intent, and the
-- provider reports what became of the payment by webhooks. All of these work on four tables.
--
-- Base: what the other modules share. Texts, Boolean tests, lists over the native numbers, results,
--   queries (`scalar_one_or_none`, WHERE as `where_rows`, a row written in place as `update_rows`).
-- Payments.Model: src/vinc_api/modules/payments/models.py and schemas.py. The four tables are the
--   record Db.
-- Payments.Encryption: src/vinc_api/modules/payments/utils/encryption.py. What it calls of
--   json, Fernet and base64 is the parameter Codec. The key is not modelled: the service stands as it
--   is once it was constructed, which raises if no key is configured.
-- Payments.Instances: src/vinc_api/modules/payments/providers. The method infos, the status tables
--   and PaymentService._get_provider_instance.
-- Payments.Webhooks: src/vinc_api/modules/payments/webhooks, one file for each provider, with the
--   provider's `verify_webhook`. The five `handle` methods have one shape, which is Handler; what
--   differs (parse, event id, reference, verification, `_process_event`) are its fields. A field of
--   a JSON body is absent, null or a text. `_process_event` returns the transaction as it stands and
--   the message of an exception, since the `finally` block commits what was changed until then. The
--   event that is appended to the column `webhook_events` in place is not written.
--   Deliveries are sequences of calls of any handlers, and a call runs to its end before the next.
-- Payments.Service: src/vinc_api/modules/payments/service.py. Providers, Storefront, Transactions,
--   Analytics and Logs are the parts of PaymentService. A call of a provider's API is a parameter that
--   answers or raises, and a refund keeps the list of such calls.
-- Payments.Routes: src/vinc_api/modules/payments/router.py. A reply is an answer with its status, an
--   HTTPException, or an exception that the route does not catch; which exceptions of the providers
--   and of the validation of an answer are a ValueError is a parameter.
-- Users.Roles: src/vinc_api/modules/users/roles.py, and the second table of roles in
--   src/vinc_api/api/deps.py. A dictionary is a ladder of tests.
-- Users.Links: src/vinc_api/modules/users/link_manager.py. The three tables of links are one list,
--   and the audit service is a flag with the list of the events that were logged.
-- Users.Links.Requests, Routes and Reads: the link routers of src/vinc_api/modules/users
--   (supplier_links_router.py, customer_links_router.py, address_links_router.py), audit_router.py and
--   the searches of link_audit.py. What the database toolkit makes of a None in `updated_at`, and the
--   truth of a database object, are parameters. A request that raises is rolled back;
--   none raises after it has logged its event. Events stand in the order of their timestamps.
-- Users.Model: src/vinc_api/modules/users/models.py, the rows of these tables, as the record Store.
-- Users.Accounts: src/vinc_api/modules/users/service.py, db_helpers.py and the list of users in
--   router.py, with the calls of src/vinc_api/core/keycloak.py. Lookups resolves what names a
--   customer or an address, Contexts makes the assignments of a request, Service creates a user,
--   Updates changes one, Associations adds and takes away one customer, Listing gives the pages.
--   An exception rolls the session back, so a call that raises gives no tables; what it did in
--   Keycloak is not undone. The client of Keycloak is the parameter Admin, which may be missing; the
--   attributes are those of the settings, the profile that is sent along is left out. What the
--   database toolkit makes of a new link whose key an old row has is the parameter `switch`. ILIKE
--   and the sort by creation are parameters. A commit checks the keys of the links and the rows that
--   they refer to. The e-mail addresses of requests are taken as written.
-- Customers: src/vinc_api/modules/customers/service.py, and router.py in Routes. What the middlewares
--   and dependencies put into a request is the record Caller; the search and the sorts of the
--   database are the record Queries.
-- Auth: src/vinc_api/common/auth.py and JWTAuthMiddleware of src/vinc_api/common/middleware.py. PyJWT
--   is the parameter JwtLib, and the request for the keys a function of the time.
-- Permissions: src/vinc_api/modules/permissions/service.py, with resolve_permissions
--   in Resolve, and the dependencies of src/vinc_api/api/deps.py on the state of a request in Guards.
--   A set is a list in ascending order; the texts of UUIDs are the parameter UuidLib; the document
--   store is a list of documents, or missing.
--
-- Amounts are cents in the native numbers, so that the rounding of floats is not modelled. Times and
-- UUIDs are numbers, given to the operation that would read the clock or draw one. An exception is
-- its message or kind; the parts of messages that name an id are left out. A query without ORDER BY
-- gives its rows in the order of the table. Where rows tie in the
-- order of a query that skips and limits, each such query has its own order. The service reads `.value`
-- of the enumerations in a request; EnumFields says whether these fields hold members, or texts as
-- `use_enum_values` leaves them, for which it raises an AttributeError. The column `updated_at` of
-- users, which the database toolkit sets, is not modelled. The column `metadata` and the
-- payloads in the log are not modelled. Nothing needs fuel: every definition is structural.
--
-- Not modelled: the other routes, the HTTP calls of the providers, the forms of the answers on users,
-- the statistics of the audit, the lists of ids in a token, and the module for
-- suppliers.
pub mod Base
pub mod Payments
pub mod Users
pub mod Customers
pub mod Auth
pub mod Permissions
