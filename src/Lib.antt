-- ===== src/Lib.antt =====
-- The measurement scripts of the F&S artifact (utils, scripts and plots): what they read from
-- the logs and reports of an experiment, what they compute from it and what they save or print.
--
-- The parts of the program and their files:
--
--   Python     what the scripts use of the language and its library: exceptions as values
--              (Exception), statements over a script's variables with break, raise and try
--              (Statement, and invariants of statements in Statement/Keeps), split and int
--              (Text, Number), csv.DictReader on files with no quotes (Csv), dict (Dict), floats
--              (Floats), and the regular expressions of one script (Pattern, their meaning in Pattern/Unique and Pattern/Search).
--   Retx       utils/print_retx_rate.py. Retx.step is one round of the loop, Retx.scan the loop,
--              Retx.asserted the assertions; Retx/Report has the prints. Retx/Snapshots and
--              Retx/Links read the file independently and compare, Retx/Asserted says what the
--              assertions ensure, Retx/Report/Lines what is printed.
--   Collect    scripts/collect-tput-stats.py and its variants vm-, tx- and vm-tx-. Collect has the
--              report files of one run, a function for each; Collect/Scripts one round of the loop
--              over the runs for each script; Collect/Summary the row that a script saves.
--              Collect/Sane, Collect/PcieReport, Collect/Outcome and Collect/Variants hold the proofs;
--              Collect/Reported is about the report of Retx, whose lines are in Retx/Report/Printed.
--   CpuUtil    utils/cpu_util.py. CpuUtil.find_header, CpuUtil.scan and CpuUtil.average_all are its
--              three loops. CpuUtil/Samples compares the totals with the rows of each CPU,
--              CpuUtil/Counted and CpuUtil/Ending follow the exceptions.
--   TcpLog     utils/parse_tcplog.py. TcpLog.parse_tokens is the record of a line, TcpLog.read_log
--              the loop, TcpLog.write_csv the rest. TcpLog/Fields and TcpLog/Values hold what stands
--              in a record, TcpLog/Columns what stands in the file.
--   Latency    scripts/collect-lat-stats.py. Latency.read_lines, Latency.read_runs and
--              Latency.read_sizes are its loops, Latency.rows the table. Latency/Readings and
--              Latency/Loops read the reports without variables, Latency/Table compares, Latency/Shape is
--              about the size of the table.
--   Rdma       scripts/collect-rdma-tput-stats.py. Rdma.read_run is one round of its loop, with a
--              function for each report, Rdma.output the row. Rdma/Counts says what a report adds
--              to the lists, Rdma/Values what the loop adds, Rdma/Saved what is saved.
--   Kvm        utils/parse_kvm_perf.py. Kvm.parse_perf_output is the parser and Kvm.write_csv the
--              rows of the CSV file; Kvm/Process chooses the files and loops over the inputs. Kvm/Rows
--              and Kvm/Totals say which lines are rows and totals, Kvm/Lines what one line does (its
--              exceptions are in Kvm/Raised), Kvm/Collected what the parser collects, Kvm/Inputs what is
--              written. The file system and the report that perf prints in a directory are the record Host.
--   Breakdown  plots/siyuan_invalidation_breakdown.py, up to the drawing. Breakdown.find_bounds finds
--              the section, Breakdown.collect reads it, Breakdown.point_of has the values that are
--              drawn. Breakdown/Section is about the section, Breakdown/Points about its rows.
--   IperfLog   the readers get_iperf_tput_from_log and get_tput_from_iperf_logs of
--              plots/siyuan_Evaluation_main.py. IperfLog/Means compares them with the values that the
--              logs show; numpy's mean and deviation are the record Numpy.
--   Virt3      plots/plot_3virt.py. Virt3 has the readers and the rates per page, Virt3/Draw the
--              functions that draw, Virt3/Plans what each of them saves, Virt3/Saved what the two
--              experiments save, Virt3/Collected how they fare on the collectors' reports.
--   Sosp24     scripts/sosp24-experiments. Sosp24/Vm is plot_vm.py and Sosp24/Pair plot.py, each with
--              what it saves (Saved) and how it fares on the collectors' reports (Collected);
--              Sosp24/Pair/Throughput has get_tput, which reads a saved report as text.
--   Dynamic    plots/leshna_plot_nested.py. Dynamic has calculate_plot_params, Dynamic/Series and
--              Dynamic/Draw have plot_bars_dynamic, Dynamic/Datasets and Dynamic/Subplots have get_data and
--              plot_all_subplots. Dynamic/Bounds is about the parameters of a figure; Dynamic/Lengths,
--              Dynamic/Loop, Dynamic/Labels and Dynamic/Charts build up what plot_bars_dynamic saves,
--              Dynamic/Refused is about its calls that raise, and Dynamic/Collected about the collectors'
--              reports. Dynamic/Ebpf has
--              plot_ebpf_selected_functions; what pandas reads of a table is the record Frames.
--
--   Metrics    scripts/report-tput-metrics.py and report-lat-metrics.py. Metrics has the printed parts, Metrics/Read the values and
--              the reports of single runs, Metrics/Ebpf get_ebpf_stats, Metrics/Main the script.
--              Metrics/Prints and Metrics/Lines say what statements print, Metrics/Printed what the script
--              prints; Metrics/Bounds and Metrics/Missing are about the statistics of the runs. What
--              pandas does with them is the record Pandas. Metrics/Lat is report-lat-metrics.py, which
--              Metrics/Latencies compares with the table of the latency collector (Latency/Shape); what
--              pandas reads of it is the record LatFrames.
--
-- How the state corresponds: a script's global variables are the fields of a record (Retx.State,
-- Collect.Metrics); variables that differ in a name alone (the eight counters of netstat, the seven
-- PCIe lists) are a function of that name. A statement maps the variables to new variables and to
-- the way in which it ends: it runs through, breaks, or raises. What was assigned before an
-- exception stays assigned, as the handlers of the collectors need it. A file is a list of lines;
-- the file system is a function from paths to files. utils/print_retx_rate.py writes the report
-- that the collectors read as retx.rpt.
--
-- A script that draws is a statement over the calls of matplotlib made so far, with their arguments
-- (Python/Drawing). Python/Drawing/Charts reads off the charts that a list of calls saves: the heights
-- of the bars and the texts of the figure that is current at each savefig. A plan is a list of
-- charts some of which an exception takes the place of. numpy's arrays and tables are the record
-- Arrays, the rectangles that plt.bar gives back the parameter Bars. The calls themselves are taken to
-- succeed (each bar chart that the experiments draw has as many heights as positions), but for two in
-- plot_bars_dynamic: plt.bar raises a ValueError for negative errors, and plt.ylim for an end of
-- the axis that is infinite or no number.
--
-- Floats are a parameter (Python/Floats): a type with float(text), the arithmetic and comparison
-- operations, statistics.mean and statistics.stdev, and no law. Where a theorem needs a law of
-- floats it is a hypothesis. Python/Floats/Whole is an arithmetic on whole numbers for the tests.
--
-- Bounds and fuel: all loops are recursions on lists. str.replace runs on as much fuel as the text
-- has characters, and each round takes one off (IperfLog/Fuel). str(n) divides by ten with n + 1
-- rounds of fuel, and a number has no more digits than that. Integers are unbounded, as Python's are.
-- NUM_RUNS and COLLECT_MLC_TPUT are natural numbers; the scripts treat a negative argument as zero.
--
-- Not modelled: text outside ASCII, quoted CSV cells and repeated columns, messages on standard
-- output other than the three reports, creating directories, the number format of numpy.savetxt,
-- the four functions of scripts/sosp24-experiments/plot.py whose calls do not fit the parameters of what
-- they call, the other plots, and the C, shell and kernel code.
pub mod Base
pub mod Python
pub mod Retx
pub mod Collect
pub mod CpuUtil
pub mod TcpLog
pub mod Latency
pub mod Rdma
pub mod Kvm
pub mod Breakdown
pub mod IperfLog
pub mod Virt3
pub mod Sosp24
pub mod Dynamic
pub mod Metrics
