-- ===== src/Lib.antt =====
-- VisionPark: the decision core of the parking backend (backend/app), as functions with their
-- correctness theorems.
--
-- Parts and files:
-- - Prelude: library names, tests, lists, Python's integers (Int) and strings (Text). Strings are
--   lists of code points; the tables of Unicode that `str.upper` and `str.strip` read are the
--   record `Unicode`, an argument of what uses them.
-- - Errors: `AppError` and the built-in exceptions as values; messages are left out.
-- - Clock: `datetime`. Instants are microseconds, a zone is a fixed offset, and `ceil` of a float
--   quotient is the exact ceiling, which it is for stays below 285 years.
-- - Ticket: `check_ticket_access` of backend/app/modules/pricing/domain.py.
-- - Fee: `PriceSnapshot` and `calculate_fee` of the same file. The loop over days runs on fuel, as
--   much as there are minutes left; each round takes at least one, so it is enough, and more fuel
--   changes nothing (Fee/Days).
-- - Plate: `normalize_plate`, `correct_vietnamese_plate`, `clamp_bbox` and `validate_image_input`
--   of backend/app/alpr/utils.py.
-- - Tables, Ledger, Billing: `create_invoice` (Invoices), `create_payment`, `apply_callback` and
--   `reconcile_payments` of backend/app/modules/pricing/billing.py, over tables as lists of rows. A
--   query is the first row that passes its condition, the rows of a call are locked, and a raise
--   rolls back. What an IntegrityError finds after the rollback is an argument.
-- - Capacity: backend/app/modules/checkin/capacity_quota_stub.py. Ratios are whole
--   percentages; a capacity or a quota need not be whole.
-- - Counters: backend/app/modules/checkin/counter_service.py and (Reconcile)
--   counter_reconciliation.py. An UPDATE writes the row, and the flush writes what the loaded object
--   then holds; whether the UPDATE refreshes that object belongs to the database library and is the
--   argument `refreshes`. A store is balanced when the count of each slot is the sum of its events.
-- - Gates, Barriers: backend/app/modules/barriers/service.py, with the roles, the lanes and the
--   sessions it reads and the events it writes; the free texts in `details` are left out. Runs has
--   its orders one after the other.
-- - Access: backend/app/modules/checkin/access_control.py, over Ticket, Plate, Capacity and
--   Counters; a decision without its message.
-- - Sessions: the rows of `parking_transactions`, the lookups of
--   backend/app/modules/checkin/repository.py for a check-out, and the markers in their notes. A
--   primary key is the condition `IsKeyed`.
-- - Charging, Checkout: backend/app/modules/checkout/service.py over Fee, Ticket, Sessions, Gates
--   and Counters. Charging is the fee of a session; Checkout the request and its checks; Closing
--   `_complete_session`; Process `process_checkout`; Payment `record_payment` and `preview`. The
--   database's LIKE, the tables of Unicode and the clock are the record `Setting`, an argument; what
--   the answer to a repeated call needs of LIKE is the condition `FindsParts`.
-- - Operations: `report_error` of backend/app/modules/operations/service.py. Limit has the reports
--   one after the other.
-- - Detections: backend/app/modules/alpr/confirmation.py without its branch for a check-in, and the
--   endpoint before it: an operator confirms or corrects the plate of a detection.
-- - Pricing: backend/app/modules/pricing/service.py: the versions of a building's prices, and the price
--   in force at a time. Requests are those that their models accept; the keys of new rows and an
--   IntegrityError at the commit are arguments.
-- - Emergency: backend/app/modules/operations/emergency_service.py over Sessions, Gates and Counters.
-- - Voter: `MultiFrameVoter` of backend/app/alpr/multi_frame_voter.py. A confidence is its rank
--   among the floats from 0, on which the order alone is used.
-- The tables hold the rows that a call may see: those of its building, where its session is bound to
-- one (backend/app/database/tenant.py).
-- Times that are only stored, messages, and the details of events but the amount of a payment are
-- left out throughout; fees are whole amounts. Not modelled: check-in but for its access control,
-- subscriptions, lot settings, the lifecycle queries, reports, users, recognition by neural networks
-- and the API around the services. Foreign keys are not checked: a row may name another that is not
-- there.
pub mod Prelude
pub mod Errors
pub mod Clock
pub mod Ticket
pub mod Fee
pub mod Plate
pub mod Tables
pub mod Ledger
pub mod Billing
pub mod Capacity
pub mod Counters
pub mod Voter
pub mod Access
pub mod Operations
pub mod Detections
pub mod Pricing
pub mod Sessions
pub mod Gates
pub mod Barriers
pub mod Charging
pub mod Checkout
pub mod Emergency
