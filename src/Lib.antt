-- ===== src/Lib.antt =====
-- Torr-BSDS (HopVault), an onion-routing network with its experiments. This development models
-- the Python part: the onion client that the experiments share, the load tests built on it, the
-- script that injects failures, and the scripts that export the metrics and make the figures of
-- the charts.
--
-- The parts and how they interact. A client asks the directory server for a circuit, gives each
-- node of it a session key, wraps a request in one layer for each node, sends it to the guard and
-- takes the layers off the answer. The load tests run that client under Locust, report each phase
-- to it and upload the results; the failure test keeps one circuit, and a checker on another
-- thread tells it when a node of the circuit is no longer healthy.
--
--   Base: the names that all files share.
--   Runtime: Python as these files use it. Json holds the values of `json.loads`, Exec the actions
--   with their trace of effects, newest first, Env everything outside the repository: network,
--   randomness, clock, and the packages cryptography, base64, json and requests. An answer may
--   depend on the whole trace, so the theorems cover every network and every clock. IsLawful is
--   what those packages document. Returns and Quiet hold the rules for taking actions apart.
--   Fallible are calls that only return or raise, Text the methods of `str`, Sort the stable sort.
--   Client: experiments/locust/circuit_client.py. Aes (`aes_encrypt`, `aes_decrypt`,
--   `rsa_encrypt_key`), Directory (`get_circuit`, `_node_url`), Setup (`_send_setup_key`,
--   `setup_circuit`), Onion (`build_onion`, `send_onion`), Reply (`decrypt_response`), Execute
--   (`_try_circuit`, `execute_circuit`).
--   Recovery: experiments/experiment3/locustfile.py. Checker (`HealthChecker`), Task (the actions
--   of a user, with its fields and the shared CSV rows as state), User (`FailureRecoveryUser`),
--   Session (its requests one after another), Crowd (several users, who share the list of rows).
--   While an action of a request waits, any number of the checker's polls may end; Env says which.
--   Checker/Threads has the two threads that share a checker, as a step relation.
--   Load: Shape (`SteppedLoadShape`, `ConstantLoadShape`), Ramp (`ThroughputRampShape`), Circuit
--   (`run_circuit` of circuit_1hop.py and circuit_3hop.py), Throughput (that of
--   throughput_scaling.py), Baseline (`EchoBaselineUser`) and Settings, all under experiments/.
--   Kill: scripts/kill_relay.py. Upload: `upload_results_to_s3` and `export_results`.
--   Charts: experiments/experiment3/generate_charts.py, its figures, in Run the files it reads, in
--   Drawn what its charts show, and in Published the upload of its images.
--   The scripts under experiments/scripts/: Metrics is export_cloudwatch_metrics.py; Summary is
--   extract_locust_metrics.py, and generate_latency_charts.py from `rows_for` on, in Drawn; Scaling
--   is generate_exp2_charts.py, with its charts in Axes and Figures, and generate_exp2_cpu_chart.py in
--   Windows and Cpu; Steady is generate_exp1_charts.py, with its charts in Drawn.
--   Scaling/Bucket is what the uploads of a trace leave in a bucket of S3, and Scaling/Uploaded puts
--   the throughput test's upload and the charts' loaders together over it, as Scaling/Combined does
--   for the export of the metrics.
--   CommandLine: the options of the scripts, each `parse_args` over the package argparse.
--   Tests: concrete worlds, and each of the results below at concrete inputs in them.
--
-- Numbers. Times are whole microseconds, so the code's products by 1000 and its `int(…)` are
-- divisions of them. Numbers in JSON are naturals; percentiles and rates are of a type that is a
-- parameter. The retry loop has the code's own bound of three attempts; the polling loop, which
-- only the stop flag ends, has fuel, of which one step more than the rounds before the flag is set
-- is enough; no other loop needs fuel.
--
-- A chart is modelled as the curves, bars, texts and axes that are drawn in it.
--
-- Not modelled: the services in Go, which stand behind Env; logging and printing; how matplotlib
-- draws a chart, with its sizes, fonts and styles; deployment.
pub mod Base
pub mod Runtime
pub mod Client
pub mod CommandLine
pub mod Recovery
pub mod Load
pub mod Kill
pub mod Upload
pub mod Charts
pub mod Tests
pub mod Metrics
pub mod Steady
pub mod Scaling
pub mod Summary
